-- ===== src/Console/History/Ring/Spec.antt =====
-- console/src/history.ts, `HistoryRing` against a bounded log: the ring holds the longest end of
-- the log that fits under the ceilings.
use agent_runtime_mcp.Base.{
  ℕ, pos, ◌+◌, ◌≡◌, refl, sym, ap, ◌∙◌, inl, inr, none, List, [], ◌∷◌, ◌++◌, arith, Bool, true,
  false, ◌&&◌, leb, if◌then◌else◌, Bool-cases, sum_of, sum_of-append, length, length-append,
}
use mathlib.Core.List.{append_assoc, append-nil}
use agent_runtime_mcp.Console.History.Entry.{
  Body, NewHistoryEntry, HistoryEntry, entry_lines, entry_bytes,
}
use agent_runtime_mcp.Console.History.Ring.{
  Ring, RingOptions, new_ring, is_over, shift, evict_from, evict, assign_id, append_entry, push,
}
use agent_runtime_mcp.Console.History.Ring.Accounting.{
  IsCounted, shift-IsCounted, append_entry-IsCounted, evict-IsBounded,
}

module _ (max_lines max_bytes : ℕ) where
  -- The entries fit under both ceilings.
  abbrev pub fits : List HistoryEntry → Bool
  fits es = leb (sum_of entry_lines es) max_lines && leb (sum_of entry_bytes es) max_bytes

  -- The longest end of the log that fits.
  pub longest_fitting : List HistoryEntry → List HistoryEntry
  longest_fitting [] = []
  longest_fitting (e ∷ es) = let rest = longest_fitting es in if fits (e ∷ es) then e ∷ es else rest

  longer_cut :
      (x : HistoryEntry) (xs ys : List HistoryEntry)
      → fits (x ∷ xs) ≡ false
      → fits (x ∷ (xs ++ ys)) ≡ false
  longer_cut x xs ys h =
      ground (arith, sum_of-append entry_lines xs ys, sum_of-append entry_bytes xs ys)

  -- Evicting early loses nothing: what was cut off before would be cut off later too.
  longest_fitting-append :
      (xs ys : List HistoryEntry)
      → longest_fitting (longest_fitting xs ++ ys) ≡ longest_fitting (xs ++ ys)
  unfolding longest_fitting
  longest_fitting-append [] ys = refl
  longest_fitting-append (x ∷ xs) ys = elim (Bool-cases (fits (x ∷ xs))) [
    | inl fit ↦ rw (fit) refl
    | inr cut ↦ rw (cut, longer_cut x xs ys cut, longest_fitting) (longest_fitting-append xs ys)
  ]

over_cut :
    (x : HistoryEntry) (es : List HistoryEntry) (r : Ring)
    → x ∷ es ≡ r.entries
    → IsCounted r
    → is_over r ≡ true
    → fits r.max_lines r.max_bytes (x ∷ es) ≡ false
over_cut x es r e c over =
    ground (arith, c.lines_eq, c.bytes_eq, ap (sum_of entry_lines) e, ap (sum_of entry_bytes) e)

within_fits :
    (x : HistoryEntry) (es : List HistoryEntry) (r : Ring)
    → x ∷ es ≡ r.entries
    → IsCounted r
    → is_over r ≡ false
    → fits r.max_lines r.max_bytes (x ∷ es) ≡ true
within_fits x es r e c within =
    ground (arith, c.lines_eq, c.bytes_eq, ap (sum_of entry_lines) e, ap (sum_of entry_bytes) e)

evict_from-longest :
    (es : List HistoryEntry) (r : Ring)
    → es ≡ r.entries
    → IsCounted r
    → (evict_from es r).entries ≡ longest_fitting r.max_lines r.max_bytes es
unfolding evict_from longest_fitting
evict_from-longest [] r e c = sym e
evict_from-longest (x ∷ es) r e c = elim (Bool-cases (is_over r)) [
  | inl over ↦
      rw (over, evict_from, over_cut x es r e c over)
        (evict_from-longest es (shift x es r) (unfold shift in refl) (shift-IsCounted x es r e c)
          ∙ unfold shift in refl)
  | inr within ↦ rw (within, evict_from, within_fits x es r e c within) (sym e)
]

-- What evicting leaves as it is: the ceilings, the next id, and the counts of entries and lines,
-- those dropped and those held together.
record Keeps (r r' : Ring) : Type 0 where
  max_lines_eq : r'.max_lines ≡ r.max_lines
  max_bytes_eq : r'.max_bytes ≡ r.max_bytes
  next_id_eq : r'.next_id ≡ r.next_id
  entries_eq : r'.dropped_entries + length r'.entries ≡ r.dropped_entries + length r.entries
  lines_eq :
      r'.dropped_lines + sum_of entry_lines r'.entries
      ≡ r.dropped_lines + sum_of entry_lines r.entries

shift-Keeps :
    (x : HistoryEntry) (es : List HistoryEntry) (r : Ring)
    → x ∷ es ≡ r.entries
    → Keeps r (shift x es r)
unfolding shift
shift-Keeps x es r e = omega (arith, ap length e, ap (sum_of entry_lines) e)

Keeps-trans : {r s t : Ring} → Keeps r s → Keeps s t → Keeps r t
Keeps-trans h k = record {
  max_lines_eq = k.max_lines_eq ∙ h.max_lines_eq;
  max_bytes_eq = k.max_bytes_eq ∙ h.max_bytes_eq;
  next_id_eq = k.next_id_eq ∙ h.next_id_eq;
  entries_eq = k.entries_eq ∙ h.entries_eq;
  lines_eq = k.lines_eq ∙ h.lines_eq;
}

evict_from-Keeps : (es : List HistoryEntry) (r : Ring) → es ≡ r.entries → Keeps r (evict_from es r)
unfolding evict_from
evict_from-Keeps [] r e = omega arith
evict_from-Keeps (x ∷ es) r e = elim (Bool-cases (is_over r)) [
  | inl over ↦
      rw (over, evict_from)
        (Keeps-trans (shift-Keeps x es r e)
          (evict_from-Keeps es (shift x es r) (unfold shift in refl)))
  | inr within ↦ rw (within, evict_from) (omega arith)
]

-- Every entry ever pushed, numbered from `n`.
pub log : ℕ → List Body → List HistoryEntry
log n [] = []
log n (body ∷ bodies) = record { id = pos n; body = body } ∷ log (n + 1) bodies

-- The ring stands for the log: it holds the longest end that fits, and counts the rest.
pub record Holds (r : Ring) (entries : List HistoryEntry) : Type 0 where
  pub counted : IsCounted r
  pub held : r.entries ≡ longest_fitting r.max_lines r.max_bytes entries
  pub dropped : r.dropped_entries + length r.entries ≡ length entries
  pub dropped_lines : r.dropped_lines + sum_of entry_lines r.entries ≡ sum_of entry_lines entries

abbrev new_entry : Body → NewHistoryEntry
new_entry body = record { id = none; body = body }

append_entry-Holds :
    (e : HistoryEntry) (r : Ring) (entries : List HistoryEntry)
    → Holds r entries
    → Holds (evict (append_entry e r)) (entries ++ e ∷ [])
unfolding evict
append_entry-Holds e r entries h = record {
  counted = (evict-IsBounded (append_entry e r) counted).counted;
  held = held;
  dropped = omega (
    arith,
    kept.entries_eq,
    h.dropped,
    length-append entries (e ∷ []),
    length-append r.entries (e ∷ []),
    same,
  );
  dropped_lines = omega (
    arith,
    kept.lines_eq,
    h.dropped_lines,
    sum_of-append entry_lines entries (e ∷ []),
    sum_of-append entry_lines r.entries (e ∷ []),
    same,
  );
}
  where
    counted : IsCounted (append_entry e r)
    counted = append_entry-IsCounted e r h.counted

    kept : Keeps (append_entry e r) (evict (append_entry e r))
    kept = evict_from-Keeps (append_entry e r).entries (append_entry e r) refl

    same :
        ((append_entry e r).dropped_entries ≡ r.dropped_entries)
        × ((append_entry e r).dropped_lines ≡ r.dropped_lines)
        × (length (append_entry e r).entries ≡ length (r.entries ++ e ∷ []))
        × (sum_of entry_lines (append_entry e r).entries ≡ sum_of entry_lines (r.entries ++ e ∷ []))
    same = unfold append_entry in (refl, refl, refl, refl)

    held :
        (evict (append_entry e r)).entries
        ≡ longest_fitting
            (evict (append_entry e r)).max_lines
            (evict (append_entry e r)).max_bytes
            (entries ++ e ∷ [])
    held =
        rw (kept.max_lines_eq, kept.max_bytes_eq)
          (evict_from-longest (append_entry e r).entries (append_entry e r) refl counted
            ∙ unfold append_entry in
              (ap (λ es. longest_fitting r.max_lines r.max_bytes (es ++ e ∷ [])) h.held
                ∙ longest_fitting-append r.max_lines r.max_bytes entries (e ∷ [])))

push-Holds :
    (body : Body) (r : Ring) (entries : List HistoryEntry)
    → Holds r entries
    → Holds (push (new_entry body) r).0 (entries ++ record { id = pos r.next_id; body = body } ∷ [])
unfolding push assign_id
push-Holds body r entries h =
    append_entry-Holds _ (record r { next_id = r.next_id + 1 }) entries
      (record {
        counted = record { lines_eq = h.counted.lines_eq; bytes_eq = h.counted.bytes_eq };
        held = h.held;
        dropped = h.dropped;
        dropped_lines = h.dropped_lines;
      })

push-next_id : (body : Body) (r : Ring) → (push (new_entry body) r).0.next_id ≡ r.next_id + 1
unfolding push assign_id evict
push-next_id body r =
    let stored : HistoryEntry = record { id = pos r.next_id; body = body } in
    let r' : Ring = append_entry stored (record r { next_id = r.next_id + 1 }) in
    (evict_from-Keeps r'.entries r' refl).next_id_eq ∙ unfold append_entry in refl

pub push_all : List Body → Ring → Ring
push_all [] r = r
push_all (body ∷ bodies) r = push_all bodies (push (new_entry body) r).0

push_all-Holds :
    (bodies : List Body) (r : Ring) (entries : List HistoryEntry)
    → Holds r entries
    → Holds (push_all bodies r) (entries ++ log r.next_id bodies)
unfolding push_all log
push_all-Holds [] r entries h = rw append-nil h
push_all-Holds (body ∷ bodies) r entries h =
    let ih = push_all-Holds bodies _ _ (push-Holds body r entries h) in
    rw (push-next_id body r, append_assoc) at ih

-- Pushing any entries into a new ring leaves the longest end of the numbered entries that fits
-- under both ceilings, and the counters tell how many entries and how many lines went before it.
pub push_all-new_ring-Holds :
    (options : RingOptions) (bodies : List Body)
    → Holds (push_all bodies (new_ring options)) (log 1 bodies)
unfolding new_ring
push_all-new_ring-Holds options bodies = push_all-Holds bodies _ [] (
    unfold longest_fitting in
    record {
      counted = record { lines_eq = refl; bytes_eq = refl };
      held = refl;
      dropped = omega arith;
      dropped_lines = omega arith;
    })

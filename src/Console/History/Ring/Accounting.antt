-- ===== src/Console/History/Ring/Accounting.antt =====
-- console/src/history.ts, `HistoryRing`: the running totals and the ceilings.
use agent_runtime_mcp.Base.{
  ℕ, ℤ, ◌+◌, ◌≤◌, ◌≡◌, refl, inl, inr, Option, none, some, ap, List, [], ◌∷◌, arith, Bool-cases,
  Option-cases, sum_of, sum_of-append, int_eq, find,
}
use agent_runtime_mcp.Console.History.Entry.{
  HistoryEntry, NewHistoryEntry, entry_lines, entry_bytes,
}
use agent_runtime_mcp.Console.History.Ring.{
  Ring, RingOptions, new_ring, is_over, shift, evict_from, evict, assign_id, append_entry, push,
  get, replace_first, update_found, update,
}

-- The totals are those of the stored entries.
pub record IsCounted (r : Ring) : Type 0 where
  pub lines_eq : r.lines ≡ sum_of entry_lines r.entries
  pub bytes_eq : r.bytes ≡ sum_of entry_bytes r.entries

-- The totals are right, and within the ceilings.
pub record IsBounded (r : Ring) : Type 0 where
  pub counted : IsCounted r
  pub lines_le : sum_of entry_lines r.entries ≤ r.max_lines
  pub bytes_le : sum_of entry_bytes r.entries ≤ r.max_bytes

pub shift-IsCounted :
    (x : HistoryEntry) (es : List HistoryEntry) (r : Ring)
    → x ∷ es ≡ r.entries
    → IsCounted r
    → IsCounted (shift x es r)
unfolding shift
shift-IsCounted x es r e c =
    omega (arith, ap (sum_of entry_lines) e, ap (sum_of entry_bytes) e, c.lines_eq, c.bytes_eq)

evict_from-IsBounded :
    (es : List HistoryEntry) (r : Ring) → es ≡ r.entries → IsCounted r → IsBounded (evict_from es r)
unfolding evict_from
evict_from-IsBounded [] r e c = record {
  counted = c;
  lines_le = rw (← e) (omega arith);
  bytes_le = rw (← e) (omega arith);
}
evict_from-IsBounded (x ∷ es) r e c = elim (Bool-cases (is_over r)) [
  | inl over ↦
      rw (over, evict_from)
        (evict_from-IsBounded es (shift x es r) (unfold shift in refl) (shift-IsCounted x es r e c))
  | inr within ↦
      rw (within, evict_from)
        (record {
          counted = c;
          lines_le = ground (arith, c.lines_eq);
          bytes_le = ground (arith, c.bytes_eq);
        })
]

pub evict-IsBounded : (r : Ring) → IsCounted r → IsBounded (evict r)
unfolding evict
evict-IsBounded r c = evict_from-IsBounded r.entries r refl c

pub append_entry-IsCounted :
    (e : HistoryEntry) (r : Ring) → IsCounted r → IsCounted (append_entry e r)
unfolding append_entry
append_entry-IsCounted e r c = omega (
  arith,
  c.lines_eq,
  c.bytes_eq,
  sum_of-append entry_lines r.entries (e ∷ []),
  sum_of-append entry_bytes r.entries (e ∷ []),
)

assign_id-IsCounted : (id : Option ℤ) (r : Ring) → IsCounted r → IsCounted (assign_id id r).0
unfolding assign_id
assign_id-IsCounted none r c = record { lines_eq = c.lines_eq; bytes_eq = c.bytes_eq }
assign_id-IsCounted (some id) r c = c

-- A push keeps the totals right and the ring within its ceilings.
pub push-IsBounded : (entry : NewHistoryEntry) (r : Ring) → IsCounted r → IsBounded (push entry r).0
unfolding push assign_id
push-IsBounded entry r c =
    evict-IsBounded _ (append_entry-IsCounted _ _ (assign_id-IsCounted entry.id r c))

replace_first-sum :
    (f : HistoryEntry → ℕ) (id : ℤ) (mutate : HistoryEntry → HistoryEntry) (es : List HistoryEntry)
    (entry : HistoryEntry)
    → find (λ e. int_eq e.id id) es ≡ some entry
    → (sum_of f (replace_first id mutate es) + f entry ≡ sum_of f es + f (mutate entry))
unfolding replace_first
replace_first-sum f id mutate [] entry h = ground arith
replace_first-sum f id mutate (x ∷ es) entry h =
    ground (arith, replace_first-sum f id mutate es entry)

find-le-sum :
    (f : HistoryEntry → ℕ) (id : ℤ) (es : List HistoryEntry) (entry : HistoryEntry)
    → find (λ e. int_eq e.id id) es ≡ some entry
    → f entry ≤ sum_of f es
find-le-sum f id [] entry h = ground arith
find-le-sum f id (x ∷ es) entry h = ground (arith, find-le-sum f id es entry)

update_found-IsCounted :
    (id : ℤ) (entry : HistoryEntry) (mutate : HistoryEntry → HistoryEntry) (r : Ring)
    → get id r ≡ some entry
    → IsCounted r
    → IsCounted (update_found id entry mutate r)
unfolding update_found get
update_found-IsCounted id entry mutate r h c = omega (
  arith,
  c.lines_eq,
  c.bytes_eq,
  replace_first-sum entry_lines id mutate r.entries entry h,
  replace_first-sum entry_bytes id mutate r.entries entry h,
  find-le-sum entry_lines id r.entries entry h,
  find-le-sum entry_bytes id r.entries entry h,
)

-- So does an update, whatever it writes into the entry.
pub update-IsBounded :
    (id : ℤ) (mutate : HistoryEntry → HistoryEntry) (r : Ring)
    → IsBounded r
    → IsBounded (update id mutate r).0
unfolding update
update-IsBounded id mutate r b = elim (Option-cases (get id r)) [
  | inl missing ↦ rw (missing, update) b
  | inr (entry, found) ↦
      rw (found, update)
        (evict-IsBounded _ (update_found-IsCounted id entry mutate r found b.counted))
]

-- The calls that change a ring.
pub data RingCall : Type 0 where
  pushes : NewHistoryEntry → RingCall
  updates : ℤ → (HistoryEntry → HistoryEntry) → RingCall

pub run : List RingCall → Ring → Ring
run [] r = r
run (pushes entry ∷ calls) r = run calls (push entry r).0
run (updates id mutate ∷ calls) r = run calls (update id mutate r).0

run-IsBounded : (calls : List RingCall) (r : Ring) → IsBounded r → IsBounded (run calls r)
unfolding run
run-IsBounded [] r b = b
run-IsBounded (pushes entry ∷ calls) r b = run-IsBounded calls _ (push-IsBounded entry r b.counted)
run-IsBounded (updates id mutate ∷ calls) r b =
    run-IsBounded calls _ (update-IsBounded id mutate r b)

pub new_ring-IsBounded : (options : RingOptions) → IsBounded (new_ring options)
unfolding new_ring
new_ring-IsBounded options = record {
  counted = record { lines_eq = refl; bytes_eq = refl };
  lines_le = omega arith;
  bytes_le = omega arith;
}

-- After any sequence of pushes and updates of a new ring, with whatever ids and mutations, the
-- line and byte totals of the ring are those of its entries, and within the two ceilings.
pub run-new_ring-IsBounded :
    (options : RingOptions) (calls : List RingCall) → IsBounded (run calls (new_ring options))
run-new_ring-IsBounded options calls =
    run-IsBounded calls (new_ring options) (new_ring-IsBounded options)

-- ===== src/Console/History/Ring/Ids.antt =====
-- console/src/history.ts, `HistoryRing`: the ids of the entries that the ring numbers itself.
use agent_runtime_mcp.Base.{
  ℕ, ℤ, pos, suc, ◌+◌, ◌≤◌, Bool, false, Option, none, some, List, [], ◌∷◌, ◌++◌, ◌≡◌, ◌⊎◌, refl,
  ◌∙◌, ap, subst, sym, arith, int_eq, int_eq_iff, find, Bool-cases, Option-cases, inl, inr, if-elim,
}
use agent_runtime_mcp.Console.History.Entry.{Body, HistoryEntry}
use agent_runtime_mcp.Console.History.Ring.{
  Ring, RingOptions, new_ring, is_over, shift, evict_from, evict, append_entry, push, alloc_id,
  assign_id, get, replace_first, update_found, update,
}
use agent_runtime_mcp.Console.History.Ring.Accounting.{
  IsBounded, new_ring-IsBounded, push-IsBounded, update-IsBounded,
}

-- The ids go upwards from `lo`, and stay below `hi`.
abbrev pub Numbered : ℕ → List HistoryEntry → ℕ → Type 0
Numbered lo [] hi = lo ≤ hi
Numbered lo (e ∷ es) hi = (k : ℕ) × (e.id ≡ pos k) × (lo ≤ k) × Numbered (suc k) es hi

abbrev pub has_id : ℤ → HistoryEntry → Bool
has_id id e = int_eq e.id id

-- The totals are right and within the ceilings, and the ids go upwards.
pub record IsGood (r : Ring) : Type 0 where
  pub bounded : IsBounded r
  pub numbered : Numbered 0 r.entries r.next_id

Numbered-weaken :
    (lo lo' : ℕ) (es : List HistoryEntry) (hi : ℕ)
    → lo' ≤ lo
    → Numbered lo es hi
    → Numbered lo' es hi
Numbered-weaken lo lo' [] hi l n = omega arith
Numbered-weaken lo lo' (e ∷ es) hi l (k, same, from, n) = (k, same, omega arith, n)

Numbered-append :
    (lo : ℕ) (es : List HistoryEntry) (hi : ℕ) (stored : HistoryEntry)
    → stored.id ≡ pos hi
    → Numbered lo es hi
    → Numbered lo (es ++ stored ∷ []) (hi + 1)
Numbered-append lo [] hi stored same n = (hi, same, n, omega arith)
Numbered-append lo (e ∷ es) hi stored same (k, e', from, n) =
    (k, e', from, Numbered-append (suc k) es hi stored same n)

evict_from-Numbered :
    (es : List HistoryEntry) (r : Ring)
    → es ≡ r.entries
    → Numbered 0 es r.next_id
    → Numbered 0 (evict_from es r).entries (evict_from es r).next_id
unfolding evict_from
evict_from-Numbered [] r e n = rw (← e) n
evict_from-Numbered (x ∷ es) r e n = elim (Bool-cases (is_over r)) [
  | inl over ↦
      rw (over, evict_from)
        (evict_from-Numbered es (shift x es r) (unfold shift in refl)
          (unfold shift in Numbered-weaken (suc n.0) 0 es r.next_id (omega arith) n.3))
  | inr within ↦ rw (within, evict_from) (subst (λ es'. Numbered 0 es' r.next_id) e n)
]

-- No id below the first one is found.
find-Numbered :
    (lo : ℕ) (es : List HistoryEntry) (hi k : ℕ)
    → suc k ≤ lo
    → Numbered lo es hi
    → find (has_id (pos k)) es ≡ none
find-Numbered lo [] hi k below n = refl
find-Numbered lo (e ∷ es) hi k below (m, same, from, n) =
    let other : int_eq e.id (pos k) ≡ false = rw same (ground (arith, from, below)) in
    rw (other, find) (find-Numbered (suc m) es hi k (omega arith) n)

find-append :
    (id : ℤ) (stored : HistoryEntry) (es : List HistoryEntry)
    → (find (has_id id) (es ++ stored ∷ []) ≡ find (has_id id) es)
      ⊎ (find (has_id id) (es ++ stored ∷ []) ≡ some stored)
      ⊎ (find (has_id id) (es ++ stored ∷ []) ≡ none)
find-append id stored [] = elim (Bool-cases (has_id id stored)) [
  | inl this ↦ inr (inl (rw (this, find) refl))
  | inr other ↦ inr (inr (rw (other, find) refl))
]
find-append id stored (e ∷ es) = elim (Bool-cases (has_id id e)) [
  | inl this ↦ inl (rw (this, find) refl)
  | inr other ↦ rw (other, find) (find-append id stored es)
]

-- Without its first entry, a numbered list finds what it found, or nothing.
find-cons :
    (id : ℤ) (x : HistoryEntry) (es : List HistoryEntry) (k hi : ℕ)
    → x.id ≡ pos k
    → Numbered (suc k) es hi
    → (o : Option HistoryEntry) → (o ≡ none) ⊎ (o ≡ find (has_id id) es)
    → (o ≡ none) ⊎ (o ≡ find (has_id id) (x ∷ es))
find-cons id x es k hi same n o (inl gone) = inl gone
find-cons id x es k hi same n o (inr e) = elim (Bool-cases (has_id id x)) [
  | inr other ↦ inr (rw (other, find) e)
  | inl this ↦
      let id_eq : pos k ≡ id = sym same ∙ (int_eq_iff x.id id).0 this in
      inl (
        e
        ∙ subst (λ i. find (has_id i) es ≡ none) id_eq
            (find-Numbered (suc k) es hi k (omega arith) n))
]

find-evict_from :
    (id : ℤ) (es : List HistoryEntry) (r : Ring) (lo hi : ℕ)
    → es ≡ r.entries
    → Numbered lo es hi
    → (find (has_id id) (evict_from es r).entries ≡ none)
      ⊎ (find (has_id id) (evict_from es r).entries ≡ find (has_id id) es)
unfolding evict_from
find-evict_from id [] r lo hi e n = inr (rw (← e) refl)
find-evict_from id (x ∷ es) r lo hi e (k, same, from, n) = elim (Bool-cases (is_over r)) [
  | inr within ↦ rw (within, evict_from) (inr (ap (find (has_id id)) (sym e)))
  | inl over ↦
      rw (over, evict_from)
        (find-cons id x es k hi same n _
          (find-evict_from id es (shift x es r) (suc k) hi (unfold shift in refl) n))
]

pub push-body :
    (body : Body) (r : Ring) → (push (record { id = none; body = body }) r).1.body ≡ body
unfolding push
push-body body r = refl

-- An entry that is found after a push was there before, or is the one pushed.
pub get-push :
    (id : ℤ) (body : Body) (r : Ring)
    → IsGood r
    → (get id (push (record { id = none; body = body }) r).0 ≡ none)
      ⊎ (get id (push (record { id = none; body = body }) r).0 ≡ get id r)
      ⊎ (get id (push (record { id = none; body = body }) r).0
          ≡ some (push (record { id = none; body = body }) r).1)
unfolding push assign_id alloc_id evict append_entry get
get-push id body r g =
    let stored : HistoryEntry = record { id = pos r.next_id; body = body } in
    elim (find-evict_from id (r.entries ++ stored ∷ []) _ 0 (r.next_id + 1) refl
      (Numbered-append 0 r.entries r.next_id stored refl g.numbered)) [
        | inl gone ↦ inl gone
        | inr same ↦ elim (find-append id stored r.entries) [
          | inl old ↦ inr (inl (same ∙ old))
          | inr (inl new) ↦ inr (inr (same ∙ new))
          | inr (inr none') ↦ inl (same ∙ none')
        ]
      ]

replace_first-Numbered :
    (id : ℤ) (mutate : HistoryEntry → HistoryEntry) (lo : ℕ) (es : List HistoryEntry) (hi : ℕ)
    → ((e : HistoryEntry) → (mutate e).id ≡ e.id)
    → Numbered lo es hi
    → Numbered lo (replace_first id mutate es) hi
unfolding replace_first
replace_first-Numbered id mutate lo [] hi keeps n = n
replace_first-Numbered id mutate lo (e ∷ es) hi keeps (k, same, from, n) =
    if-elim (λ es'. Numbered lo es' hi) (has_id id e) (mutate e ∷ es)
      (e ∷ replace_first id mutate es) (λ _. (k, keeps e ∙ same, from, n))
      (λ _. (k, same, from, replace_first-Numbered id mutate (suc k) es hi keeps n))

pub push-IsGood :
    (body : Body) (r : Ring) → IsGood r → IsGood (push (record { id = none; body = body }) r).0
unfolding push assign_id alloc_id evict append_entry
push-IsGood body r g = record {
  bounded = push-IsBounded (record { id = none; body = body }) r g.bounded.counted;
  numbered = evict_from-Numbered _ _ refl (Numbered-append 0 r.entries r.next_id _ refl g.numbered);
}

pub update-IsGood :
    (id : ℤ) (mutate : HistoryEntry → HistoryEntry) (r : Ring)
    → ((e : HistoryEntry) → (mutate e).id ≡ e.id)
    → IsGood r
    → IsGood (update id mutate r).0
unfolding update evict update_found
update-IsGood id mutate r keeps g = record {
  bounded = update-IsBounded id mutate r g.bounded;
  numbered = elim (Option-cases (get id r)) [
    | inl missing ↦ rw (missing, update) g.numbered
    | inr (entry, found) ↦
        rw (found, update)
          (evict_from-Numbered _ _ refl
            (replace_first-Numbered id mutate 0 r.entries r.next_id keeps g.numbered))
  ];
}

pub new_ring-IsGood : (options : RingOptions) → IsGood (new_ring options)
unfolding new_ring
new_ring-IsGood options = record { bounded = new_ring-IsBounded options; numbered = omega arith }

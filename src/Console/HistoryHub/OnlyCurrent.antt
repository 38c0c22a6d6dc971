-- ===== src/Console/HistoryHub/OnlyCurrent.antt =====
-- console/src/observer.ts: which blocks of output are open in the history of a channel.
use agent_runtime_mcp.Base.{
  ℕ, ℤ, pos, suc, ◌≤◌, Bool, false, not, Option, none, some, List, [], ◌∷◌, ◌≡◌, ◌⊎◌, refl, sym,
  ◌∙◌, ap, subst, arith, int_eq_iff, find, Bool-cases, Option-cases, inl, inr, All, All-append,
  All-map, some-inj,
}
use agent_runtime_mcp.Console.History.Entry.{Body, HistoryEntry, output_block}
use agent_runtime_mcp.Console.History.Ring.{
  Ring, is_over, shift, evict_from, evict, append_entry, push, alloc_id, assign_id, get,
  replace_first, update_found, update,
}
use agent_runtime_mcp.Console.History.Ring.Ids.{Numbered, has_id, IsGood}
use agent_runtime_mcp.Console.HistoryHub.Blocks.{is_closed}

-- An output block that is not closed.
abbrev pub is_open_body : Body → Bool
is_open_body body = elim body [ output_block b ↦ not (is_closed b.state) | _ ↦ false ]

abbrev pub IsShut : HistoryEntry → Type 0
IsShut e = is_open_body e.body ≡ false

-- Every block but the current one is closed.
abbrev pub OnlyCurrent : Option ℤ → List HistoryEntry → Type 0
OnlyCurrent current es = All (λ e. IsShut e ⊎ (current ≡ some e.id)) es

pub pos-inj : {m n : ℕ} → pos m ≡ pos n → m ≡ n
pos-inj e = cc

pub IsShut-OnlyCurrent :
    (current : Option ℤ) (es : List HistoryEntry) → All IsShut es → OnlyCurrent current es
IsShut-OnlyCurrent current es all = All-map es (λ e shut. inl shut) all

pub evict_from-All :
    (P : HistoryEntry → Type 0) (es : List HistoryEntry) (r : Ring)
    → es ≡ r.entries
    → All P es
    → All P (evict_from es r).entries
unfolding evict_from
evict_from-All P [] r e all = rw (← e) tt
evict_from-All P (x ∷ es) r e all = elim (Bool-cases (is_over r)) [
  | inl over ↦
      rw (over, evict_from) (evict_from-All P es (shift x es r) (unfold shift in refl) all.1)
  | inr within ↦ rw (within, evict_from) (subst (All P) e all)
]

-- Behind a lower id, all blocks are closed.
pub IsShut-higher :
    (k lo : ℕ) (es : List HistoryEntry) (hi : ℕ)
    → suc k ≤ lo
    → Numbered lo es hi
    → OnlyCurrent (some (pos k)) es
    → All IsShut es
IsShut-higher k lo [] hi below n all = tt
IsShut-higher k lo (e ∷ es) hi below (m, same, from, n) (first, all) =
    (head first, IsShut-higher k (suc m) es hi (omega (arith, below, from)) n all)
  where
    head : IsShut e ⊎ (some (pos k) ≡ some e.id) → IsShut e
    head (inl shut) = shut
    head (inr this) = absurd (omega (arith, below, from, pos-inj (some-inj this ∙ same)))

-- If the entry with the current id is found to be closed, or not found, all blocks are.
pub IsShut-all :
    (id : ℤ) (lo : ℕ) (es : List HistoryEntry) (hi : ℕ)
    → Numbered lo es hi
    → ((e : HistoryEntry) → find (has_id id) es ≡ some e → IsShut e)
    → OnlyCurrent (some id) es
    → All IsShut es
IsShut-all id lo [] hi n found all = tt
IsShut-all id lo (e ∷ es) hi (m, same, from, n) found (first, all) =
    elim (Bool-cases (has_id id e)) [
      | inl this ↦
          let id_eq : e.id ≡ id = (int_eq_iff e.id id).0 this in
          (
            found e (rw (this, find) refl),
            IsShut-higher m (suc m) es hi (omega arith) n
                (subst (λ i. OnlyCurrent (some i) es) (sym id_eq ∙ same) all),
          )
      | inr other ↦ (
        head other first,
        IsShut-all id (suc m) es hi n (λ x f. found x (rw (other, find) f)) all,
      )
    ]
  where
    head : has_id id e ≡ false → IsShut e ⊎ (some id ≡ some e.id) → IsShut e
    head other (inl shut) = shut
    head other (inr this) = absurd (cc (other, (int_eq_iff e.id id).1 (sym (some-inj this))))

-- The entry with the current id is changed into one that is closed.
pub replace_first-IsShut :
    (id : ℤ) (mutate : HistoryEntry → HistoryEntry) (lo : ℕ) (es : List HistoryEntry) (hi : ℕ)
    → ((e : HistoryEntry) → IsShut (mutate e))
    → Numbered lo es hi
    → OnlyCurrent (some id) es
    → All IsShut (replace_first id mutate es)
unfolding replace_first
replace_first-IsShut id mutate lo [] hi shuts n all = tt
replace_first-IsShut id mutate lo (e ∷ es) hi shuts (m, same, from, n) (first, all) =
    elim (Bool-cases (has_id id e)) [
      | inl this ↦
          let id_eq : e.id ≡ id = (int_eq_iff e.id id).0 this in
          rw (this, replace_first)
            (
              shuts e,
              IsShut-higher m (suc m) es hi (omega arith) n
                  (subst (λ i. OnlyCurrent (some i) es) (sym id_eq ∙ same) all),
            )
      | inr other ↦
          rw (other, replace_first)
            (head other first, replace_first-IsShut id mutate (suc m) es hi shuts n all)
    ]
  where
    head : has_id id e ≡ false → IsShut e ⊎ (some id ≡ some e.id) → IsShut e
    head other (inl shut) = shut
    head other (inr this) = absurd (cc (other, (int_eq_iff e.id id).1 (sym (some-inj this))))

-- The entry with the current id is changed in any way that keeps its id.
pub replace_first-OnlyCurrent :
    (id : ℤ) (mutate : HistoryEntry → HistoryEntry) (es : List HistoryEntry)
    → ((e : HistoryEntry) → (mutate e).id ≡ e.id)
    → OnlyCurrent (some id) es
    → OnlyCurrent (some id) (replace_first id mutate es)
unfolding replace_first
replace_first-OnlyCurrent id mutate [] keeps all = tt
replace_first-OnlyCurrent id mutate (e ∷ es) keeps (first, all) = elim (Bool-cases (has_id id e)) [
  | inl this ↦
      rw (this, replace_first) (inr (ap some (sym (keeps e ∙ (int_eq_iff e.id id).0 this))), all)
  | inr other ↦ rw (other, replace_first) (first, replace_first-OnlyCurrent id mutate es keeps all)
]

-- A property of all entries, over an update of the ring.
pub update-All :
    (P : HistoryEntry → Type 0) (id : ℤ) (mutate : HistoryEntry → HistoryEntry) (r : Ring)
    → ((e : HistoryEntry) → get id r ≡ some e → All P (replace_first id mutate r.entries))
    → (get id r ≡ none → All P r.entries)
    → All P (update id mutate r).0.entries
unfolding update evict update_found
update-All P id mutate r found missing = elim (Option-cases (get id r)) [
  | inl absent ↦ rw (absent, update) (missing absent)
  | inr (e, there) ↦ rw (there, update) (evict_from-All P _ _ refl (found e there))
]

pub push-All :
    (P : HistoryEntry → Type 0) (body : Body) (r : Ring)
    → All P r.entries
    → P (push (record { id = none; body = body }) r).1
    → All P (push (record { id = none; body = body }) r).0.entries
unfolding push assign_id alloc_id evict append_entry
push-All P body r all stored = evict_from-All P _ _ refl (All-append P r.entries _ all (stored, tt))

-- The ring is good, and at most its current block is open.
abbrev pub SoundAt : Option ℤ → Ring → Type 0
SoundAt current r = IsGood r × OnlyCurrent current r.entries

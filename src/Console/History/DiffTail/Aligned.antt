-- ===== src/Console/History/DiffTail/Aligned.antt =====
-- console/src/history.ts, `diffTail`: the overlap is the longest plausible alignment.
use agent_runtime_mcp.Base.{
  ℕ, zero, suc, ◌+◌, ◌-◌, ◌≤◌, ◌<◌, ◌≡◌, refl, subst, ap, ◌⊎◌, inl, inr, ◌↔◌, Bool, true, false,
  some, List, [], ◌∷◌, Text, text_eq, text_eq_iff, length, length-drop, get_elem?, take, drop, min,
  max, ltb, if◌then◌else◌, arith, Bool-cases,
}
use native.Mathlib.Decide.{dec_lt}
use agent_runtime_mcp.Console.History.DiffTail.{
  common_prefix, aligned_from, best_from, suffix_prefix, init, overlap,
}

drop_step :
    (a : List Text) (j : ℕ)
    → j < length a
    → (x : Text) × (get_elem? a j ≡ some x) × (drop j a ≡ x ∷ drop (suc j) a)
drop_step [] j h = elim h [ ]
drop_step (x ∷ a) zero h = (x, refl, refl)
drop_step (x ∷ a) (suc j) h = drop_step a j (omega arith)

aligned_step :
    (x y : Text) (s t : List Text) (rest : Bool)
    → ((rest ≡ true) ↔ (s ≡ t))
    → ((if text_eq x y then rest else false) ≡ true) ↔ (x ∷ s ≡ y ∷ t)
aligned_step x y s t rest h = elim (Bool-cases (text_eq x y)) [
  | inl same ↦
      rw same (λ e. ground (arith, (text_eq_iff x y).0 same, h.0 e), λ e. h.1 (ground arith))
  | inr other ↦ rw other (λ e. cc, λ e. ground (arith, text_eq_iff x y))
]

-- The inner loop compares two stretches of lines.
aligned_from_iff :
    (a b : List Text) (k rounds i : ℕ)
    → k ≤ length a
    → i + rounds ≡ k
    → k ≤ length b
    → (aligned_from a b k rounds i ≡ true)
      ↔ (take rounds (drop (length a - k + i) a) ≡ take rounds (drop i b))
unfolding aligned_from
aligned_from_iff a b k zero i ha e hb = (λ _. refl, λ _. refl)
aligned_from_iff a b k (suc rounds) i ha e hb =
    go (drop_step a (length a - k + i) (omega arith)) (drop_step b i (omega arith)) (
      let p : length a - k + (i + 1) ≡ suc (length a - k + i) = omega arith in
      let q : i + 1 ≡ suc i = omega arith in
      subst
        (λ m.
          (aligned_from a b k rounds (i + 1) ≡ true)
          ↔ (take rounds (drop m a) ≡ take rounds (drop (suc i) b)))
        p
        (subst
          (λ n.
            (aligned_from a b k rounds (i + 1) ≡ true)
            ↔ (take rounds (drop (length a - k + (i + 1)) a) ≡ take rounds (drop n b)))
          q (aligned_from_iff a b k rounds (i + 1) ha (omega arith) hb)))
  where
    go :
        ((x : Text) × (get_elem? a (length a - k + i) ≡ some x)
          × (drop (length a - k + i) a ≡ x ∷ drop (suc (length a - k + i)) a))
        → ((y : Text) × (get_elem? b i ≡ some y) × (drop i b ≡ y ∷ drop (suc i) b))
        → ((aligned_from a b k rounds (i + 1) ≡ true)
            ↔ (take rounds (drop (suc (length a - k + i)) a) ≡ take rounds (drop (suc i) b)))
        → (aligned_from a b k (suc rounds) i ≡ true)
          ↔ (take (suc rounds) (drop (length a - k + i) a) ≡ take (suc rounds) (drop i b))
    go (x, gx, dx) (y, gy, dy) ih = rw (gx, gy, dx, dy) (aligned_step x y _ _ _ ih)

take_all : (a : List Text) (k : ℕ) → length a ≤ k → take k a ≡ a
take_all [] zero h = refl
take_all [] (suc k) h = refl
take_all (x ∷ a) zero h = absurd (omega arith)
take_all (x ∷ a) (suc k) h = ap (◌∷◌ x) (take_all a k (omega arith))

-- `a` ends with the first `k` lines of `b`.
abbrev pub EndsWith : List Text → List Text → ℕ → Type 0
EndsWith a b k = (k ≤ length a) × (k ≤ length b) × (drop (length a - k) a ≡ take k b)

aligned_iff :
    (a b : List Text) (k : ℕ)
    → k ≤ length a
    → k ≤ length b
    → (aligned_from a b k k 0 ≡ true) ↔ (drop (length a - k) a ≡ take k b)
aligned_iff a b k ha hb =
    let zero_in : length a - k + 0 ≡ length a - k = omega arith in
    let whole : take k (drop (length a - k) a) ≡ drop (length a - k) a =
      take_all _ k (omega (arith, length-drop (length a - k) a)) in
    let h = aligned_from_iff a b k k 0 ha (omega arith) hb in rw (zero_in, whole) at h

drop_all : (a : List Text) → drop (length a) a ≡ []
drop_all [] = refl
drop_all (x ∷ a) = drop_all a

EndsWith-zero : (a b : List Text) → EndsWith a b 0
EndsWith-zero a b =
    let whole : length a - 0 ≡ length a = omega arith in
    (omega arith, omega arith, rw whole (drop_all a))

-- The outer loop keeps the last length at which the lines agree.
best_from-EndsWith :
    (a b : List Text) (rounds k best : ℕ)
    → k + rounds ≤ suc (min (length a) (length b))
    → EndsWith a b best
    → EndsWith a b (best_from a b rounds k best)
unfolding best_from
best_from-EndsWith a b zero k best h e = e
best_from-EndsWith a b (suc rounds) k best h e =
    best_from-EndsWith a b rounds (k + 1) _ (omega arith)
      (elim (Bool-cases (aligned_from a b k k 0)) [
        | inl hit ↦
            rw hit (omega arith, omega arith, (aligned_iff a b k (omega arith) (omega arith)).0 hit)
        | inr miss ↦ rw miss e
      ])

best_from-max :
    (a b : List Text) (rounds k best m : ℕ)
    → k + rounds ≡ suc (min (length a) (length b))
    → (m ≤ best) ⊎ ((k ≤ m) × EndsWith a b m)
    → best < k
    → m ≤ best_from a b rounds k best
unfolding best_from
best_from-max a b zero k best m h (inl le) lt = le
best_from-max a b zero k best m h (inr (le, e)) lt = omega arith
best_from-max a b (suc rounds) k best m h s lt =
    best_from-max a b rounds (k + 1) _ m (omega arith) (here s) (ground arith)
  where
    here :
        (m ≤ best) ⊎ ((k ≤ m) × EndsWith a b m)
        → (m ≤ (if aligned_from a b k k 0 then k else best)) ⊎ ((k + 1 ≤ m) × EndsWith a b m)
    here (inl le) = inl (ground arith)
    here (inr (le, e)) = elim (dec_lt k m) [
      | yes past ↦ inr (omega arith, e)
      | no now ↦
          let same : m ≡ k = omega arith in
          let hit : aligned_from a b k k 0 ≡ true =
            (aligned_iff a b k (omega arith) (omega arith)).1
              (subst (λ n. drop (length a - n) a ≡ take n b) same e.2) in
          inl (rw (hit, same) (omega arith))
    ]

-- The lines of `next` that count as old are the last lines of `prev`, as many as agree.
pub suffix_prefix-EndsWith : (a b : List Text) → EndsWith a b (suffix_prefix a b)
unfolding suffix_prefix
suffix_prefix-EndsWith a b = best_from-EndsWith a b _ 1 0 (omega arith) (EndsWith-zero a b)

pub suffix_prefix-max : (a b : List Text) (m : ℕ) → EndsWith a b m → m ≤ suffix_prefix a b
unfolding suffix_prefix
suffix_prefix-max a b zero e = omega arith
suffix_prefix-max a b (suc m) e =
    best_from-max a b _ 1 0 (suc m) (omega arith) (inr (omega arith, e)) (omega arith)

-- The first `k` lines of both are the same.
abbrev pub StartsAlike : List Text → List Text → ℕ → Type 0
StartsAlike a b k = (k ≤ length a) × (k ≤ length b) × (take k a ≡ take k b)

common_prefix-StartsAlike : (a b : List Text) → StartsAlike a b (common_prefix a b)
unfolding common_prefix
common_prefix-StartsAlike [] b = (omega arith, omega arith, refl)
common_prefix-StartsAlike (x ∷ a) [] = (omega arith, omega arith, refl)
common_prefix-StartsAlike (x ∷ a) (y ∷ b) = elim (Bool-cases (text_eq x y)) [
  | inl same ↦
      let (le_a, le_b, alike) = common_prefix-StartsAlike a b in
      rw same (omega arith, omega arith, ground (arith, (text_eq_iff x y).0 same))
  | inr other ↦ rw other (omega arith, omega arith, refl)
]

common_prefix-max : (a b : List Text) (m : ℕ) → StartsAlike a b m → m ≤ common_prefix a b
unfolding common_prefix
common_prefix-max a b zero e = omega arith
common_prefix-max [] b (suc m) e = e.0
common_prefix-max (x ∷ a) [] (suc m) e = e.1
common_prefix-max (x ∷ a) (y ∷ b) (suc m) (le_a, le_b, alike) =
    let ih = common_prefix-max a b m (omega arith, omega arith, ground arith) in
    let same : x ≡ y = ground arith in rw ((text_eq_iff x y).1 same) (omega (arith, ih))

-- A plausible alignment: the screen grew in place, it scrolled, or it scrolled and its last line
-- was rewritten.
abbrev pub Aligns : List Text → List Text → ℕ → Type 0
Aligns prev next k = StartsAlike prev next k ⊎ (EndsWith prev next k ⊎ EndsWith (init prev) next k)

max_cases : (a b : ℕ) → (max a b ≡ a) ⊎ (max a b ≡ b)
max_cases a b = omega arith

pub length-init : (a : List Text) → length (init a) ≡ length a - 1
length-init [] = refl
length-init (x ∷ []) = refl
length-init (x ∷ y ∷ a) = omega (arith, length-init (y ∷ a))

abbrev rewritten : List Text → List Text → ℕ
rewritten prev next = if ltb 1 (length prev) then suffix_prefix (init prev) next else 0

abbrev best_scrolled : List Text → List Text → ℕ
best_scrolled prev next = max (suffix_prefix prev next) (rewritten prev next)

rewritten-EndsWith : (prev next : List Text) → EndsWith (init prev) next (rewritten prev next)
rewritten-EndsWith prev next = elim (Bool-cases (ltb 1 (length prev))) [
  | inl many ↦ rw many (suffix_prefix-EndsWith (init prev) next)
  | inr few ↦ rw few (EndsWith-zero (init prev) next)
]

-- The lines that `diffTail` counts as old are a plausible alignment of the two reads.
pub overlap-Aligns : (prev next : List Text) → Aligns prev next (overlap prev next)
unfolding overlap
overlap-Aligns prev next = elim (max_cases (common_prefix prev next) (best_scrolled prev next)) [
  | inl grown ↦ rw grown (inl (common_prefix-StartsAlike prev next))
  | inr scrolled ↦ rw scrolled (elim (max_cases (suffix_prefix prev next) (rewritten prev next)) [
    | inl kept ↦ rw kept (inr (inl (suffix_prefix-EndsWith prev next)))
    | inr last ↦ rw last (inr (inr (rewritten-EndsWith prev next)))
  ])
]

-- No plausible alignment is longer, so no line of one is reported as new.
pub overlap-max : (prev next : List Text) (k : ℕ) → Aligns prev next k → k ≤ overlap prev next
unfolding overlap
overlap-max prev next k (inl a) = omega (arith, common_prefix-max prev next k a)
overlap-max prev next k (inr (inl a)) = omega (arith, suffix_prefix-max prev next k a)
overlap-max prev next k (inr (inr a)) =
    ground (arith, suffix_prefix-max (init prev) next k a, length-init prev)

-- ===== src/Base/Split.antt =====
-- `split` by one character and `join`, as JavaScript has them.
use Prim.Native.Nat.{ℕ, ◌≤◌}
use mathlib.Core.Path.{◌≡◌, refl, ap, ◌∙◌}
use mathlib.Core.Logic.{◌≢◌, inl, inr}
use mathlib.Core.Bool.{Bool}
use mathlib.Core.List.{List, [], ◌∷◌, ◌++◌}
use mathlib.Core.Option
use mathlib.Core.Option.{Option, none, some}
use native.Mathlib.Omega.{arith}
use agent_runtime_mcp.Base.Tests.{◌==◌, if◌then◌else◌, if-elim, Bool-cases, ==_self}
use agent_runtime_mcp.Base.Lists.{All, any, length}
use agent_runtime_mcp.Base.Chars.{Text}

abbrev cons_head : ℕ → List Text → List Text
cons_head c [] = (c ∷ []) ∷ []
cons_head c (t ∷ ts) = (c ∷ t) ∷ ts

-- `text.split(sep)`: never the empty list.
unfoldable pub split : ℕ → Text → List Text
split sep [] = [] ∷ []
split sep (c ∷ s) = let rest = split sep s in if c == sep then [] ∷ rest else cons_head c rest

-- `parts.join(sep)`
unfoldable pub join : Text → List Text → Text
join sep [] = []
join sep (t ∷ []) = t
join sep (t ∷ u ∷ ts) = t ++ (sep ++ join sep (u ∷ ts))

abbrev pub Lacks : ℕ → Text → Type 0
Lacks sep = All (λ c. c ≢ sep)

pub split-ne-nil : (sep : ℕ) (s : Text) → split sep s ≢ []
unfolding split
split-ne-nil sep [] = λ e. cc
split-ne-nil sep (c ∷ s) = ground arith

join-cons_head :
    (sep : ℕ) (c : ℕ) (ts : List Text)
    → ts ≢ []
    → join (sep ∷ []) (cons_head c ts) ≡ c ∷ join (sep ∷ []) ts
unfolding join
join-cons_head sep c [] h = absurd (h refl)
join-cons_head sep c (t ∷ []) h = refl
join-cons_head sep c (t ∷ u ∷ ts) h = refl

join-nil_cons :
    (sep : ℕ) (ts : List Text) → ts ≢ [] → join (sep ∷ []) ([] ∷ ts) ≡ sep ∷ join (sep ∷ []) ts
unfolding join
join-nil_cons sep [] h = absurd (h refl)
join-nil_cons sep (t ∷ ts) h = refl

-- Joining what was split gives the text back.
pub join-split : (sep : ℕ) (s : Text) → join (sep ∷ []) (split sep s) ≡ s
unfolding split
join-split sep [] = unfold join in refl
join-split sep (c ∷ s) = elim (Bool-cases (c == sep)) [
  | inl same ↦
      rw (same, split)
        (join-nil_cons sep (split sep s) (split-ne-nil sep s)
          ∙ ap (◌∷◌ sep) (join-split sep s)
          ∙ ap (λ d. d ∷ s) (ground arith))
  | inr other ↦
      rw (other, split)
        (join-cons_head sep c (split sep s) (split-ne-nil sep s) ∙ ap (◌∷◌ c) (join-split sep s))
]

split-Lacks : (sep : ℕ) (t : Text) → Lacks sep t → split sep t ≡ t ∷ []
unfolding split
split-Lacks sep [] h = refl
split-Lacks sep (c ∷ t) h = ground (arith, split-Lacks sep t h.1)

split-append_sep : (sep : ℕ) (t s : Text) → Lacks sep t → split sep (t ++ sep ∷ s) ≡ t ∷ split sep s
unfolding split
split-append_sep sep [] s h = rw (==_self sep)
split-append_sep sep (c ∷ t) s h = ground (arith, split-append_sep sep t s h.1)

-- Splitting what was joined gives the parts back, if there is one and none holds the separator.
pub split-join :
    (sep : ℕ) (t : Text) (ts : List Text)
    → All (Lacks sep) (t ∷ ts)
    → split sep (join (sep ∷ []) (t ∷ ts)) ≡ t ∷ ts
unfolding join
split-join sep t [] h = split-Lacks sep t h.0
split-join sep t (u ∷ ts) h =
    split-append_sep sep t (join (sep ∷ []) (u ∷ ts)) h.0 ∙ ap (◌∷◌ t) (split-join sep u ts h.1)

-- The text before the first `c` and the text behind it, if there is one: `indexOf` and `slice`.
unfoldable pub cut_first : ℕ → Text → Option (Text × Text)
cut_first sep [] = none
cut_first sep (c ∷ s) =
    let rest = Option.map (λ (p : Text × Text). (c ∷ p.0, p.1)) (cut_first sep s) in
    if c == sep then some ([], s) else rest

-- The same at the last one: `lastIndexOf` and `slice`.
unfoldable pub cut_last : ℕ → Text → Option (Text × Text)
cut_last sep [] = none
cut_last sep (c ∷ s) = elim (cut_last sep s) [
  | some p ↦ some (c ∷ p.0, p.1)
  | none ↦ if c == sep then some ([], s) else none
]

-- `text.includes(c)`
abbrev pub has_char : ℕ → Text → Bool
has_char sep = any (λ c. c == sep)

length-cons_head : (c : ℕ) (ts : List Text) → length ts ≤ length (cons_head c ts)
length-cons_head c [] = omega arith
length-cons_head c (t ∷ ts) = omega arith

-- A text has at least as many pieces as each of its ends.
pub length-split-append :
    (sep : ℕ) (d k : Text) → length (split sep k) ≤ length (split sep (d ++ k))
unfolding split
length-split-append sep [] k = omega arith
length-split-append sep (c ∷ d) k =
    if-elim (λ ts. length (split sep k) ≤ length ts) (c == sep) ([] ∷ split sep (d ++ k))
      (cons_head c (split sep (d ++ k))) (λ _. ground (arith, length-split-append sep d k))
      (λ _. ground (arith, length-split-append sep d k, length-cons_head c (split sep (d ++ k))))

cons_head-Lacks :
    (sep c : ℕ) (ts : List Text) → c ≢ sep → All (Lacks sep) ts → All (Lacks sep) (cons_head c ts)
cons_head-Lacks sep c [] other all = ((other, tt), tt)
cons_head-Lacks sep c (t ∷ ts) other (first, all) = ((other, first), all)

-- No piece has the separator in it.
pub split-All-Lacks : (sep : ℕ) (s : Text) → All (Lacks sep) (split sep s)
unfolding split
split-All-Lacks sep [] = (tt, tt)
split-All-Lacks sep (c ∷ s) =
    if-elim (All (Lacks sep)) (c == sep) _ _ (λ _. (tt, split-All-Lacks sep s))
      (λ other. cons_head-Lacks sep c (split sep s) (ground (arith, other)) (split-All-Lacks sep s))

-- ===== src/Console/History/DiffTail.antt =====
-- console/src/history.ts, `diffTail`: which lines of a bounded tail read are new.
pub mod Aligned
pub mod Growth
use agent_runtime_mcp.Base.{
  ℕ, zero, suc, ◌+◌, ◌-◌, Bool, true, false, Option, none, some, List, [], ◌∷◌, Text, text_eq,
  is_empty, length, get_elem?, drop, split, join, min, max, ltb, if◌then◌else◌,
}

pub record Diff : Type 0 where
  pub appended : Text
  pub overlapped : ℕ

abbrev pop_onto : Text → List Text → List Text
pop_onto line [] = if is_empty line then [] else line ∷ []
pop_onto line (next ∷ rest) = line ∷ next ∷ rest

-- The loops that pop blank lines from the end.
pub pop_blanks : List Text → List Text
pop_blanks [] = []
pop_blanks (line ∷ lines) = pop_onto line (pop_blanks lines)

-- The loop on `k1`.
pub common_prefix : List Text → List Text → ℕ
common_prefix [] b = 0
common_prefix (x ∷ a) [] = 0
common_prefix (x ∷ a) (y ∷ b) = let rest = common_prefix a b in if text_eq x y then suc rest else 0

-- `===` on two lines, where an index out of range gives undefined
abbrev pub same_line : Option Text → Option Text → Bool
same_line none none = true
same_line none (some t) = false
same_line (some s) none = false
same_line (some s) (some t) = text_eq s t

-- The inner loop of `suffixPrefix`, from `i` on, with `rounds` left.
pub aligned_from : List Text → List Text → ℕ → (rounds i : ℕ) → Bool
aligned_from a b k zero i = true
aligned_from a b k (suc rounds) i =
    let rest = aligned_from a b k rounds (i + 1) in
    if same_line (get_elem? a (length a - k + i)) (get_elem? b i) then rest else false

-- The outer loop, from `k` on, with `rounds` left.
pub best_from : List Text → List Text → (rounds k best : ℕ) → ℕ
best_from a b zero k best = best
best_from a b (suc rounds) k best =
    best_from a b rounds (k + 1) (if aligned_from a b k k 0 then k else best)

pub suffix_prefix : List Text → List Text → ℕ
suffix_prefix a b = best_from a b (min (length a) (length b)) 1 0

-- `slice(0, -1)`
abbrev pub init : List Text → List Text
init [] = []
init (x ∷ []) = []
init (x ∷ y ∷ xs) = x ∷ init (y ∷ xs)

pub overlap : List Text → List Text → ℕ
overlap prev next = max (common_prefix prev next) (
    max (suffix_prefix prev next)
      (if ltb 1 (length prev) then suffix_prefix (init prev) next else 0))

pub diff_lines : List Text → List Text → Diff
diff_lines prev [] = record { appended = []; overlapped = 1 }
diff_lines [] (line ∷ next) = record { appended = join (b'\n' ∷ []) (line ∷ next); overlapped = 0 }
diff_lines (old ∷ prev) (line ∷ next) =
    let overlapped = overlap (old ∷ prev) (line ∷ next) in
    record { appended = join (b'\n' ∷ []) (drop overlapped (line ∷ next)); overlapped = overlapped }

pub diff_tail : Text → Text → Diff
diff_tail prev next =
    if is_empty next
    then record { appended = []; overlapped = 0 }
    else if text_eq next prev
    then record { appended = []; overlapped = 1 }
    else if is_empty prev
    then record { appended = next; overlapped = 0 }
    else diff_lines (pop_blanks (split b'\n' prev)) (pop_blanks (split b'\n' next))

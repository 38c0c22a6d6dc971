-- ===== src/Console/History/DiffTail/Growth.antt =====
-- console/src/history.ts, `diffTail` on a screen that only grew.
use agent_runtime_mcp.Base.{
  ℕ, ◌≤◌, ◌≡◌, ◌≢◌, refl, sym, ap, ◌∙◌, inl, inr, false, List, [], ◌∷◌, ◌++◌, Text, text_eq,
  text_eq_iff, is_empty, length, length-append, take, drop-length-append, take-length-append, split,
  join, split-join, All, All-append, Lacks, arith, Bool-cases,
}
use mathlib.Core.List.{append-nil}
use agent_runtime_mcp.Console.History.DiffTail.{pop_blanks, overlap, diff_lines, diff_tail}
use agent_runtime_mcp.Console.History.DiffTail.Aligned.{
  Aligns, overlap-Aligns, overlap-max, length-init,
}

-- There is a last line, and it is not blank.
abbrev pub EndsNonblank : List Text → Type 0
EndsNonblank [] = ⊥
EndsNonblank (line ∷ []) = line ≢ []
EndsNonblank (line ∷ next ∷ rest) = EndsNonblank (next ∷ rest)

abbrev pub AllBlank : List Text → Type 0
AllBlank = All (λ line. line ≡ [])

abbrev pub lines : List Text → Text
lines = join (b'\n' ∷ [])

pop_blanks-AllBlank : (b : List Text) → AllBlank b → pop_blanks b ≡ []
unfolding pop_blanks
pop_blanks-AllBlank [] h = refl
pop_blanks-AllBlank (line ∷ b) h = rw (pop_blanks-AllBlank b h.1, h.0)

pop_blanks-append : (p b : List Text) → EndsNonblank p → AllBlank b → pop_blanks (p ++ b) ≡ p
unfolding pop_blanks
pop_blanks-append [] b e h = absurd e
pop_blanks-append ([] ∷ []) b e h = absurd (e refl)
pop_blanks-append ((c ∷ line) ∷ []) b e h = rw (pop_blanks-AllBlank b h)
pop_blanks-append (line ∷ next ∷ rest) b e h = rw (pop_blanks-append (next ∷ rest) b e h)

EndsNonblank-append : (p c : List Text) → EndsNonblank c → EndsNonblank (p ++ c)
EndsNonblank-append [] c h = h
EndsNonblank-append (x ∷ []) [] h = absurd h
EndsNonblank-append (x ∷ []) (y ∷ c) h = h
EndsNonblank-append (x ∷ y ∷ p) c h = EndsNonblank-append (y ∷ p) c h

take_self : (p : List Text) → take (length p) p ≡ p
take_self p = rw (append-nil) at (take-length-append p [])

overlap-le : (p c : List Text) (k : ℕ) → Aligns p c k → k ≤ length p
overlap-le p c k (inl a) = a.0
overlap-le p c k (inr (inl a)) = a.0
overlap-le p c k (inr (inr a)) = omega (arith, length-init p, a.0)

overlap-append : (p c : List Text) → overlap p (p ++ c) ≡ length p
overlap-append p c =
    let alike : take (length p) p ≡ take (length p) (p ++ c) =
      take_self p ∙ sym (take-length-append p c) in
    let whole : Aligns p (p ++ c) (length p) =
      inl (omega arith, omega (arith, length-append p c), alike) in
    omega (
      arith,
      overlap-le p (p ++ c) _ (overlap-Aligns p (p ++ c)),
      overlap-max p (p ++ c) (length p) whole,
    )

diff_lines-append :
    (p c : List Text)
    → EndsNonblank p
    → diff_lines p (p ++ c) ≡ record { appended = lines c; overlapped = length p }
unfolding diff_lines
diff_lines-append [] c e = absurd e
diff_lines-append (x ∷ p) c e = rw (overlap-append (x ∷ p) c, drop-length-append p c)

is_empty-lines : (p b : List Text) → EndsNonblank p → is_empty (lines (p ++ b)) ≡ false
unfolding join
is_empty-lines [] b e = absurd e
is_empty-lines ([] ∷ []) b e = absurd (e refl)
is_empty-lines ((c ∷ x) ∷ []) [] e = refl
is_empty-lines ((c ∷ x) ∷ []) (y ∷ b) e = refl
is_empty-lines ([] ∷ y ∷ p) b e = refl
is_empty-lines ((c ∷ x) ∷ y ∷ p) b e = refl

split-lines : (p : List Text) → p ≢ [] → All (Lacks b'\n') p → split b'\n' (lines p) ≡ p
split-lines [] h l = absurd (h refl)
split-lines (x ∷ p) h l = split-join b'\n' x p l

AllBlank-Lacks : (b : List Text) → AllBlank b → All (Lacks b'\n') b
AllBlank-Lacks [] h = tt
AllBlank-Lacks (x ∷ b) h = (rw h.0 tt, AllBlank-Lacks b h.1)

EndsNonblank-ne : (p b : List Text) → EndsNonblank p → p ++ b ≢ []
EndsNonblank-ne [] b e = absurd e
EndsNonblank-ne (x ∷ p) b e = λ h. cc

pop_blanks-split :
    (p b : List Text)
    → All (Lacks b'\n') p
    → EndsNonblank p
    → AllBlank b
    → pop_blanks (split b'\n' (lines (p ++ b))) ≡ p
pop_blanks-split p b l e h =
    ap pop_blanks
      (split-lines (p ++ b) (EndsNonblank-ne p b e) (All-append _ p b l (AllBlank-Lacks b h)))
    ∙ pop_blanks-append p b e h

-- Two reads of a screen: its lines `p` with blank lines `b` below, and then the same lines with
-- `c` added, above blank lines `d`. Neither `p` nor `p` with `c` ends in a blank line, `c` is not
-- empty, and no line holds a line break. Then exactly `c` is new: nothing is lost or repeated.
pub diff_tail-growth :
    (p c b d : List Text)
    → All (Lacks b'\n') p
    → All (Lacks b'\n') c
    → EndsNonblank p
    → EndsNonblank c
    → AllBlank b
    → AllBlank d
    → diff_tail (lines (p ++ b)) (lines ((p ++ c) ++ d))
      ≡ record { appended = lines c; overlapped = length p }
unfolding diff_tail
diff_tail-growth p c b d lp lc ep ec hb hd =
    let ends = EndsNonblank-append p c ec in
    let old = pop_blanks-split p b lp ep hb in
    let new = pop_blanks-split (p ++ c) d (All-append _ p c lp lc) ends hd in
    let differ : text_eq (lines ((p ++ c) ++ d)) (lines (p ++ b)) ≡ false =
      elim (Bool-cases (text_eq (lines ((p ++ c) ++ d)) (lines (p ++ b)))) [
        | inl same ↦
            let again : p ++ c ≡ p =
              sym new ∙ ap (λ t. pop_blanks (split b'\n' t)) ((text_eq_iff _ _).0 same) ∙ old in
            absurd (grows p c ec again)
        | inr other ↦ other
      ] in
    rw (is_empty-lines (p ++ c) d ends, differ, is_empty-lines p b ep, old, new)
      (diff_lines-append p c ep)
  where
    grows : (p c : List Text) → EndsNonblank c → p ++ c ≡ p → ⊥
    grows p [] e h = e
    grows p (x ∷ c) e h = omega (arith, ap length h, length-append p (x ∷ c))

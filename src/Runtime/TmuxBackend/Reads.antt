-- ===== src/Runtime/TmuxBackend/Reads.antt =====
-- src/tmux-backend.ts: what `readChannel` returns.
pub mod Channel
use mathlib.Core.List.{append_assoc, append-nil}
use agent_runtime_mcp.Base.{
  ℕ, zero, suc, ◌+◌, ◌-◌, ◌<◌, ◌≤◌, Bool, true, false, not, ◌&&◌, ◌||◌, Option, none, some, List,
  [], ◌∷◌, ◌++◌, Text, is_empty, utf8, byte_length, split, join, split-join, join-split,
  length-split-append, split-All-Lacks, Lacks, ltb, leb, ◌==◌, length, length-drop, drop, All,
  All-drop, or_default, if◌then◌else◌, if-elim, ◌≡◌, ◌≢◌, refl, sym, ap, subst, ◌∙◌, arith,
  Bool-cases, inl, inr,
}
use agent_runtime_mcp.Runtime.Errors.{Result, ok, thrown}
use agent_runtime_mcp.Runtime.TmuxBackend.Utf8.{Tail, take_last_utf8_bytes, IsScalar}
use agent_runtime_mcp.Runtime.TmuxBackend.Utf8.Suffix.{
  IsLongestTail, take_last_utf8_bytes-IsLongestTail,
}
use agent_runtime_mcp.Runtime.TmuxBackend.{
  ChannelRead, Backend, Runner, answered, failed, without_final_newline, split_captured_lines,
  read_of,
}

split_captured_lines-Lacks : (s : Text) → All (Lacks 0x0a) (split_captured_lines s)
unfolding split_captured_lines
split_captured_lines-Lacks s =
    if-elim (All (Lacks 0x0a)) (is_empty (without_final_newline s)) _ _ (λ _. tt)
      (λ _. split-All-Lacks 0x0a (without_final_newline s))

join-split_captured_lines :
    (s : Text) → join (0x0a ∷ []) (split_captured_lines s) ≡ without_final_newline s
unfolding split_captured_lines
join-split_captured_lines s =
    if-elim (λ ts. join (0x0a ∷ []) ts ≡ without_final_newline s)
      (is_empty (without_final_newline s)) _ _
      (λ none. unfold join in sym (empty (without_final_newline s) none))
      (λ _. join-split 0x0a (without_final_newline s))
  where
    empty : (t : Text) → is_empty t ≡ true → t ≡ []
    empty [] e = refl
    empty (c ∷ t) e = absurd (cc e)

-- The lines of a text; the empty text has none.
abbrev pub count_of : Text → ℕ
count_of t = if length t == 0 then 0 else length (split 0x0a t)

-- An end of lines that are joined has no more lines than they are.
count_of-tail :
    (ts : List Text) (d k : Text)
    → All (Lacks 0x0a) ts
    → join (0x0a ∷ []) ts ≡ d ++ k
    → count_of k ≤ length ts
count_of-tail [] [] k all e = unfold join in rw (sym e) (omega arith)
count_of-tail [] (c ∷ d) k all e = unfold join in absurd (cc e)
count_of-tail (t ∷ ts) d k all e =
    let pieces : length (split 0x0a (d ++ k)) ≡ length (t ∷ ts) =
      ap (λ u. length (split 0x0a u)) (sym e) ∙ ap length (split-join 0x0a t ts all) in
    ground (arith, pieces, length-split-append 0x0a d k)

-- The lines that are kept: all of them, or the last ones.
abbrev selected : ℕ → List Text → List Text
selected lines captured =
    if ltb lines (length captured) then drop (length captured - lines) captured else captured

length-selected : (lines : ℕ) (captured : List Text) → length (selected lines captured) ≤ lines
length-selected lines captured = ground (arith, length-drop (length captured - lines) captured)

selected-Lacks :
    (lines : ℕ) (stdout : Text) → All (Lacks 0x0a) (selected lines (split_captured_lines stdout))
selected-Lacks lines stdout =
    if-elim (All (Lacks 0x0a)) (ltb lines (length (split_captured_lines stdout))) _ _
      (λ _.
        All-drop (Lacks 0x0a) (length (split_captured_lines stdout) - lines)
          (split_captured_lines stdout) (split_captured_lines-Lacks stdout))
      (λ _. split_captured_lines-Lacks stdout)

take_last_utf8_bytes-whole :
    (s : Text) (max_bytes : ℕ)
    → (take_last_utf8_bytes s max_bytes).truncated ≡ false
    → (take_last_utf8_bytes s max_bytes).text ≡ s
unfolding take_last_utf8_bytes
take_last_utf8_bytes-whole s max_bytes h = elim (Bool-cases (leb (length (utf8 s)) max_bytes)) [
  | inl fits ↦ rw fits refl
  | inr over ↦ absurd (cc (rw over at h))
]

-- `join` of the last lines is an end of `join` of all.
join-drop :
    (n : ℕ) (ts : List Text)
    → (d : Text) × (join (0x0a ∷ []) ts ≡ d ++ join (0x0a ∷ []) (drop n ts))
unfolding join
join-drop zero ts = ([], refl)
join-drop (suc n) [] = ([], refl)
join-drop (suc zero) (t ∷ []) = (t, sym (append-nil t))
join-drop (suc (suc n)) (t ∷ []) = (t, sym (append-nil t))
join-drop (suc n) (t ∷ u ∷ ts) =
    let (d, e) = join-drop n (u ∷ ts) in
    (
      t ++ 0x0a ∷ d,
      ap (λ r. t ++ 0x0a ∷ r) e
          ∙ sym (append_assoc t (0x0a ∷ d) (join (0x0a ∷ []) (drop n (u ∷ ts)))),
    )

join-selected :
    (lines : ℕ) (ts : List Text)
    → (d : Text) × (join (0x0a ∷ []) ts ≡ d ++ join (0x0a ∷ []) (selected lines ts))
join-selected lines ts =
    if-elim (λ us. (d : Text) × (join (0x0a ∷ []) ts ≡ d ++ join (0x0a ∷ []) us))
      (ltb lines (length ts)) _ _ (λ _. join-drop (length ts - lines) ts) (λ _. ([], refl))

All-right : (P : ℕ → Type 0) (d k : Text) → All P (d ++ k) → All P k
All-right P [] k h = h
All-right P (c ∷ d) k h = All-right P d k h.1

All-without_final_newline : (P : ℕ → Type 0) (s : Text) → All P s → All P (without_final_newline s)
All-without_final_newline P [] h = tt
All-without_final_newline P (c ∷ []) h = if-elim (All P) (c == 0x0a) [] (c ∷ []) (λ _. tt) (λ _. h)
All-without_final_newline P (c ∷ d ∷ s) h = (h.0, All-without_final_newline P (d ∷ s) h.1)

-- What a read returns of the output: an end of its lines, within both limits, with its right counts, and
-- all of it where it says that nothing was cut off.
pub record IsBoundedRead (lines bytes : ℕ) (stdout : Text) (r : ChannelRead) : Type 0 where
  pub few_lines : count_of r.text ≤ lines
  pub few_bytes : byte_length r.text ≤ bytes
  pub line_count_eq : r.line_count ≡ count_of r.text
  pub byte_count_eq : r.byte_count ≡ byte_length r.text
  pub dropped : Text
  pub is_end : without_final_newline stdout ≡ dropped ++ r.text
  pub complete : r.truncated ≡ false → r.text ≡ without_final_newline stdout

module _ (b : Backend) (runner : Runner) where
  read_of-IsBoundedRead :
      (channel_id : Text) (lines bytes : ℕ) (stdout : Text)
      → All IsScalar stdout
      → IsBoundedRead lines bytes stdout (read_of b runner channel_id lines bytes stdout)
  read_of-IsBoundedRead channel_id lines bytes stdout scalar = unfold read_of in rw kept from_tail
    where
      captured : List Text
      captured = split_captured_lines stdout

      whole : Text
      whole = join (0x0a ∷ []) (selected lines captured)

      r : Tail
      r = take_last_utf8_bytes whole bytes

      kept : (if r.truncated then r.text else whole) ≡ r.text
      kept =
          if-elim (λ t. t ≡ r.text) r.truncated r.text whole (λ _. refl)
            (λ e. sym (take_last_utf8_bytes-whole whole bytes e))

      whole-all : ltb lines (length captured) ≡ false → whole ≡ join (0x0a ∷ []) captured
      whole-all e =
          ap
            (λ (over : Bool).
              join (0x0a ∷ []) (if over then drop (length captured - lines) captured else captured))
            e

      from_tail : IsBoundedRead lines bytes stdout (record {
        channel_id = channel_id;
        text = r.text;
        truncated = ltb lines (length captured) || r.truncated;
        line_count = count_of r.text;
        byte_count = byte_length r.text;
      })
      from_tail =
          let (d, ends) = join-selected lines captured in
          let output : without_final_newline stdout ≡ d ++ whole =
            sym (join-split_captured_lines stdout) ∙ ends in
          let scalars : All IsScalar whole =
            All-right IsScalar d whole
              (subst (All IsScalar) output (All-without_final_newline IsScalar stdout scalar)) in
          let (longest, cut) = take_last_utf8_bytes-IsLongestTail whole bytes scalars in
          record {
            few_lines = ground (
              arith,
              count_of-tail (selected lines captured) longest.dropped r.text
                  (selected-Lacks lines stdout) longest.split,
              length-selected lines captured,
            );
            few_bytes = longest.fits;
            line_count_eq = refl;
            byte_count_eq = refl;
            dropped = d ++ longest.dropped;
            is_end =
                output
                ∙ ap (λ t. d ++ t) longest.split
                ∙ sym (append_assoc d longest.dropped r.text);
            complete = λ e.
                take_last_utf8_bytes-whole whole bytes (ground (arith, e))
                ∙ whole-all (ground (arith, e))
                ∙ join-split_captured_lines stdout;
          }

-- ===== src/Runtime/TmuxBackend/Utf8/Suffix.antt =====
-- src/tmux-backend.ts: what `takeLastUtf8Bytes` keeps.
use agent_runtime_mcp.Base.{
  ℕ, ◌/◌, ◌%◌, zero, suc, ◌+◌, ◌-◌, ◌<◌, ◌≤◌, true, false, List, [], ◌∷◌, ◌++◌, Text, utf8,
  utf8_char, byte_length, ltb, leb, length, length-append, drop, is_surrogate, if◌then◌else◌, All,
  ◌≡◌, refl, ap, ◌∙◌, arith, Bool-cases, inl, inr,
}
use agent_runtime_mcp.Runtime.TmuxBackend.Utf8.{
  is_continuation, skip_continuation, take_last_utf8_bytes, IsScalar, decode-utf8,
}

-- A character's bytes: the first is no continuation, and the others are.
record Bytes (c : ℕ) : Type 0 where
  first : ℕ
  others : List ℕ
  split : utf8_char c ≡ first ∷ others
  starts : is_continuation first ≡ false
  continues : All (λ b. is_continuation b ≡ true) others

bytes : (c : ℕ) → Bytes c
unfolding utf8_char
bytes c = elim (Bool-cases (ltb c 0x80)) [
  | inl one ↦ shape c [] (rw one refl) (ground (arith, one)) tt
  | inr more ↦ elim (Bool-cases (ltb c 0x800)) [
    | inl two ↦
        shape (0xc0 + c / 64) ((0x80 + c % 64) ∷ []) (rw (more, two) refl) (ground arith)
          (ground arith, tt)
    | inr more2 ↦ elim (Bool-cases (is_surrogate c)) [
      | inl lone ↦
          shape 0xef (0xbf ∷ 0xbd ∷ []) (rw (more, more2, lone) refl) refl (refl, (refl, tt))
      | inr scalar ↦ elim (Bool-cases (ltb c 0x10000)) [
        | inl three ↦
            shape (0xe0 + c / 4096) ((0x80 + c / 64 % 64) ∷ (0x80 + c % 64) ∷ [])
              (rw (more, more2, scalar, three) refl) (ground arith)
              (ground arith, (ground arith, tt))
        | inr four ↦
            shape (0xf0 + c / 262144)
              ((0x80 + c / 4096 % 64) ∷ (0x80 + c / 64 % 64) ∷ (0x80 + c % 64) ∷ [])
              (rw (more, more2, scalar, four) refl) (ground arith)
              (ground arith, (ground arith, (ground arith, tt)))
      ]
    ]
  ]
]
  where
    shape :
        (b : ℕ) (bs : List ℕ)
        → utf8_char c ≡ b ∷ bs
        → is_continuation b ≡ false
        → All (λ x. is_continuation x ≡ true) bs
        → Bytes c
    shape b bs e s k = record { first = b; others = bs; split = e; starts = s; continues = k }

skip_continuation-utf8 : (s : Text) → skip_continuation (utf8 s) ≡ utf8 s
unfolding utf8 skip_continuation
skip_continuation-utf8 [] = refl
skip_continuation-utf8 (c ∷ s) = rw (Bytes.split (bytes c), Bytes.starts (bytes c)) refl

skip_continuation-drop :
    (m : ℕ) (bs rest : List ℕ)
    → All (λ b. is_continuation b ≡ true) bs
    → skip_continuation (drop m (bs ++ rest)) ≡ skip_continuation (drop (m - length bs) rest)
unfolding skip_continuation
skip_continuation-drop m [] rest all = ap (λ k. skip_continuation (drop k rest)) (omega arith)
skip_continuation-drop zero (b ∷ bs) rest (first, all) = rw first (
    skip_continuation-drop zero bs rest all
    ∙ ap (λ k. skip_continuation (drop k rest)) (omega arith))
skip_continuation-drop (suc m) (b ∷ bs) rest (first, all) =
    skip_continuation-drop m bs rest all ∙ ap (λ k. skip_continuation (drop k rest)) (omega arith)

-- The first of the text's ends, the whole of it included, that is short enough.
tail_fitting : ℕ → Text → Text
tail_fitting max_bytes [] = []
tail_fitting max_bytes (c ∷ s) =
    let rest = tail_fitting max_bytes s in
    if leb (byte_length (c ∷ s)) max_bytes then c ∷ s else rest

skip_continuation-over :
    (max_bytes b : ℕ) (bs rest : List ℕ)
    → max_bytes < suc (length (bs ++ rest))
    → All (λ x. is_continuation x ≡ true) bs
    → skip_continuation (drop (suc (length (bs ++ rest)) - max_bytes) (b ∷ bs ++ rest))
      ≡ skip_continuation (drop (length rest - max_bytes) rest)
skip_continuation-over max_bytes b bs rest over all =
    ap (λ k. skip_continuation (drop k (b ∷ bs ++ rest))) more
    ∙ skip_continuation-drop (length (bs ++ rest) - max_bytes) bs rest all
    ∙ ap (λ k. skip_continuation (drop k rest)) (omega (arith, length-append bs rest))
  where
    more : suc (length (bs ++ rest)) - max_bytes ≡ suc (length (bs ++ rest) - max_bytes)
    more = omega (arith, over)

skip_continuation-short :
    (max_bytes : ℕ) (s : Text)
    → length (utf8 s) ≤ max_bytes
    → skip_continuation (drop (length (utf8 s) - max_bytes) (utf8 s)) ≡ utf8 s
skip_continuation-short max_bytes s h =
    ap (λ k. skip_continuation (drop k (utf8 s))) nothing ∙ skip_continuation-utf8 s
  where
    nothing : length (utf8 s) - max_bytes ≡ 0
    nothing = omega (arith, h)

skip_continuation-tail_fitting :
    (max_bytes : ℕ) (s : Text)
    → skip_continuation (drop (length (utf8 s) - max_bytes) (utf8 s))
      ≡ utf8 (tail_fitting max_bytes s)
unfolding tail_fitting byte_length
skip_continuation-tail_fitting max_bytes [] =
    skip_continuation-short max_bytes [] (unfold utf8 in omega arith)
skip_continuation-tail_fitting max_bytes (c ∷ s) =
    elim (Bool-cases (leb (length (utf8 (c ∷ s))) max_bytes)) [
      | inl fits ↦ rw fits (skip_continuation-short max_bytes (c ∷ s) (ground (arith, fits)))
      | inr over ↦
          rw (over) (long (ground (arith, over)) (skip_continuation-tail_fitting max_bytes s))
    ]
  where
    split : utf8 (c ∷ s) ≡ Bytes.first (bytes c) ∷ Bytes.others (bytes c) ++ utf8 s
    split = unfold utf8 in rw (Bytes.split (bytes c)) refl

    long :
        max_bytes < length (utf8 (c ∷ s))
        → skip_continuation (drop (length (utf8 s) - max_bytes) (utf8 s))
          ≡ utf8 (tail_fitting max_bytes s)
        → skip_continuation (drop (length (utf8 (c ∷ s)) - max_bytes) (utf8 (c ∷ s)))
          ≡ utf8 (tail_fitting max_bytes s)
    long over ih = rw (split) (
        skip_continuation-over max_bytes (Bytes.first (bytes c)) (Bytes.others (bytes c)) (utf8 s)
          (rw (split) at over) (Bytes.continues (bytes c))
        ∙ ih)

tail_fitting-fits : (max_bytes : ℕ) (s : Text) → byte_length (tail_fitting max_bytes s) ≤ max_bytes
unfolding tail_fitting
tail_fitting-fits max_bytes [] = unfold byte_length utf8 in omega arith
tail_fitting-fits max_bytes (c ∷ s) = ground (arith, tail_fitting-fits max_bytes s)

tail_fitting-split :
    (max_bytes : ℕ) (s : Text) → (dropped : Text) × (s ≡ dropped ++ tail_fitting max_bytes s)
unfolding tail_fitting
tail_fitting-split max_bytes [] = ([], refl)
tail_fitting-split max_bytes (c ∷ s) = elim (Bool-cases (leb (byte_length (c ∷ s)) max_bytes)) [
  | inl fits ↦ ([], rw fits refl)
  | inr over ↦
      let (dropped, e) = tail_fitting-split max_bytes s in
      (c ∷ dropped, rw over (ap (λ t. c ∷ t) e))
]

tail_fitting-longest :
    (max_bytes : ℕ) (dropped kept : Text)
    → byte_length kept ≤ max_bytes
    → length kept ≤ length (tail_fitting max_bytes (dropped ++ kept))
unfolding tail_fitting
tail_fitting-longest max_bytes [] [] h = omega arith
tail_fitting-longest max_bytes [] (c ∷ s) h = ground (arith, h)
tail_fitting-longest max_bytes (c ∷ s) kept h =
    ground (arith, tail_fitting-longest max_bytes s kept h, length-append s kept)

tail_fitting-IsScalar :
    (max_bytes : ℕ) (s : Text) → All IsScalar s → All IsScalar (tail_fitting max_bytes s)
unfolding tail_fitting
tail_fitting-IsScalar max_bytes [] all = tt
tail_fitting-IsScalar max_bytes (c ∷ s) (scalar, all) =
    elim (Bool-cases (leb (byte_length (c ∷ s)) max_bytes)) [
      | inl fits ↦ rw fits (scalar, all)
      | inr over ↦ rw over (tail_fitting-IsScalar max_bytes s all)
    ]

-- An end of the text that fits, and no end that fits is longer.
pub record IsLongestTail (s : Text) (max_bytes : ℕ) (kept : Text) : Type 0 where
  pub dropped : Text
  pub split : s ≡ dropped ++ kept
  pub fits : byte_length kept ≤ max_bytes
  pub longest : (d k : Text) → s ≡ d ++ k → byte_length k ≤ max_bytes → length k ≤ length kept

take_last_utf8_bytes-text :
    (s : Text) (max_bytes : ℕ)
    → All IsScalar s
    → (take_last_utf8_bytes s max_bytes).text ≡ tail_fitting max_bytes s
unfolding take_last_utf8_bytes
take_last_utf8_bytes-text s max_bytes all = elim (Bool-cases (leb (length (utf8 s)) max_bytes)) [
  | inl fits ↦ rw fits (whole s fits)
  | inr over ↦
      rw (over, skip_continuation-tail_fitting max_bytes s)
        (decode-utf8 (tail_fitting max_bytes s) (tail_fitting-IsScalar max_bytes s all))
]
  where
    whole : (t : Text) → leb (length (utf8 t)) max_bytes ≡ true → t ≡ tail_fitting max_bytes t
    whole [] e = unfold tail_fitting in refl
    whole (c ∷ t) e = unfold tail_fitting byte_length in rw e refl

-- Of a text without lone surrogates the function keeps the longest end whose UTF-8 encoding has at
-- most `max_bytes` bytes, cut between characters, and says that it truncated exactly when the
-- whole text has more bytes.
pub take_last_utf8_bytes-IsLongestTail :
    (s : Text) (max_bytes : ℕ)
    → All IsScalar s
    → IsLongestTail s max_bytes (take_last_utf8_bytes s max_bytes).text
      × ((take_last_utf8_bytes s max_bytes).truncated ≡ ltb max_bytes (byte_length s))
take_last_utf8_bytes-IsLongestTail s max_bytes all = (
  rw (take_last_utf8_bytes-text s max_bytes all) longest_tail,
  unfold take_last_utf8_bytes byte_length in ground arith,
)
  where
    longest_tail : IsLongestTail s max_bytes (tail_fitting max_bytes s)
    longest_tail =
        let (dropped, split) = tail_fitting-split max_bytes s in
        record {
          dropped = dropped;
          split = split;
          fits = tail_fitting-fits max_bytes s;
          longest = λ d k e h. rw e (tail_fitting-longest max_bytes d k h);
        }

-- ===== src/Runtime/TmuxBackend/Utf8.antt =====
-- src/tmux-backend.ts: `takeLastUtf8Bytes`. Bytes that are no UTF-8 do not reach the decoder.
pub mod Suffix
use agent_runtime_mcp.Base.{
  ℕ, zero, suc, ◌+◌, ◌-◌, ◌*◌, ◌/◌, ◌%◌, ◌<◌, ◌≤◌, Bool, true, false, not, ◌&&◌, List, [], ◌∷◌,
  ◌++◌, Text, utf8, utf8_char, byte_length, is_surrogate, ltb, leb, ◌==◌, length, drop,
  if◌then◌else◌, All, ◌≡◌, ◌≢◌, refl, sym, ap, ◌∙◌, arith, Bool-cases, inl, inr, if-elim,
}

-- What the first byte of a character says: how many bytes follow, and its own bits.
unfoldable pub lead : ℕ → ℕ × ℕ
lead b =
    if ltb b 0x80
    then (0, b)
    else if ltb b 0xe0
    then (1, b - 0xc0)
    else if ltb b 0xf0
    then (2, b - 0xe0)
    else (3, b - 0xf0)

-- The decoder, with the number of bytes that the character still needs and its bits so far.
unfoldable pub decode_from : ℕ → ℕ → List ℕ → Text
decode_from zero acc [] = []
decode_from (suc n) acc [] = 0xfffd ∷ []
decode_from zero acc (b ∷ bs) =
    let (n, bits) = lead b in
    let rest = decode_from n bits bs in if n == 0 then bits ∷ rest else rest
decode_from (suc zero) acc (b ∷ bs) = (acc * 64 + (b - 0x80)) ∷ decode_from 0 0 bs
decode_from (suc (suc n)) acc (b ∷ bs) = decode_from (suc n) (acc * 64 + (b - 0x80)) bs

-- `buffer.toString('utf8')`
unfoldable pub decode : List ℕ → Text
decode bs = decode_from 0 0 bs

-- `(byte & 0xc0) === 0x80`
abbrev pub is_continuation : ℕ → Bool
is_continuation b = leb 0x80 b && ltb b 0xc0

-- The loop that moves the start past continuation bytes.
unfoldable pub skip_continuation : List ℕ → List ℕ
skip_continuation [] = []
skip_continuation (b ∷ bs) =
    let rest = skip_continuation bs in if is_continuation b then rest else b ∷ bs

pub record Tail : Type 0 where
  pub text : Text
  pub truncated : Bool

unfoldable pub take_last_utf8_bytes : Text → ℕ → Tail
take_last_utf8_bytes text max_bytes =
    if leb (length (utf8 text)) max_bytes
    then record { text = text; truncated = false }
    else record {
      text = decode (skip_continuation (drop (length (utf8 text) - max_bytes) (utf8 text)));
      truncated = true;
    }

-- A code point that is no surrogate.
abbrev pub IsScalar : ℕ → Type 0
IsScalar c = (c < 0x110000) × (is_surrogate c ≡ false)

decode_from-zero : (acc : ℕ) (bs : List ℕ) → decode_from 0 acc bs ≡ decode bs
unfolding decode decode_from
decode_from-zero acc [] = refl
decode_from-zero acc (b ∷ bs) = refl

decode-1 : (c : ℕ) (bs : List ℕ) → c < 0x80 → decode (c ∷ bs) ≡ c ∷ decode bs
unfolding decode decode_from
decode-1 c bs h = rw (first) (ap (λ t. c ∷ t) (decode_from-zero c bs))
  where
    first : lead c ≡ (0, c)
    first = unfold lead in ground (arith, h)

decode-2 :
    (a x : ℕ) (bs : List ℕ)
    → a < 32
    → decode ((0xc0 + a) ∷ (0x80 + x) ∷ bs) ≡ (a * 64 + x) ∷ decode bs
unfolding decode decode_from
decode-2 a x bs h = rw (first) (ap (λ n. n ∷ decode bs) (omega arith))
  where
    first : lead (0xc0 + a) ≡ (1, a)
    first = unfold lead in ground (arith, h)

decode-3 :
    (a x y : ℕ) (bs : List ℕ)
    → a < 16
    → decode ((0xe0 + a) ∷ (0x80 + x) ∷ (0x80 + y) ∷ bs) ≡ ((a * 64 + x) * 64 + y) ∷ decode bs
unfolding decode decode_from
decode-3 a x y bs h = rw (first) (ap (λ n. n ∷ decode bs) (omega arith))
  where
    first : lead (0xe0 + a) ≡ (2, a)
    first = unfold lead in ground (arith, h)

decode-4 :
    (a x y z : ℕ) (bs : List ℕ)
    → decode ((0xf0 + a) ∷ (0x80 + x) ∷ (0x80 + y) ∷ (0x80 + z) ∷ bs)
      ≡ (((a * 64 + x) * 64 + y) * 64 + z) ∷ decode bs
unfolding decode decode_from
decode-4 a x y z bs = rw (first) (ap (λ n. n ∷ decode bs) (omega arith))
  where
    first : lead (0xf0 + a) ≡ (3, a)
    first = unfold lead in ground arith

-- The decoder gives back what was encoded.
decode-utf8_char : (c : ℕ) (bs : List ℕ) → IsScalar c → decode (utf8_char c ++ bs) ≡ c ∷ decode bs
unfolding utf8_char
decode-utf8_char c bs (small, scalar) = elim (Bool-cases (ltb c 0x80)) [
  | inl one ↦ rw one (decode-1 c bs (ground (arith, one)))
  | inr more ↦ elim (Bool-cases (ltb c 0x800)) [
    | inl two ↦
        rw (more, two)
          (decode-2 (c / 64) (c % 64) bs (ground (arith, two))
            ∙ ap (λ n. n ∷ decode bs) (omega arith))
    | inr more2 ↦ elim (Bool-cases (ltb c 0x10000)) [
      | inl three ↦
          rw (more, more2, scalar, three)
            (decode-3 (c / 4096) (c / 64 % 64) (c % 64) bs (ground (arith, three))
              ∙ ap (λ n. n ∷ decode bs) (omega arith))
      | inr four ↦
          rw (more, more2, scalar, four)
            (decode-4 (c / 262144) (c / 4096 % 64) (c / 64 % 64) (c % 64) bs
              ∙ ap (λ n. n ∷ decode bs) (omega arith))
    ]
  ]
]

decode-utf8 : (s : Text) → All IsScalar s → decode (utf8 s) ≡ s
unfolding utf8
decode-utf8 [] all = unfold decode decode_from in refl
decode-utf8 (c ∷ s) (scalar, all) =
    decode-utf8_char c (utf8 s) scalar ∙ ap (λ t. c ∷ t) (decode-utf8 s all)

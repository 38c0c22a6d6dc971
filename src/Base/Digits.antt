-- ===== src/Base/Digits.antt =====
-- Numbers in decimal and in lower-case hexadecimal: `String(n)`, `n.toString(16)`, and back.
use Prim.Native.Nat.{ℕ, zero, suc, ◌+◌, ◌-◌, ◌*◌, ◌/◌, ◌%◌, ◌≤◌, ◌<◌}
use mathlib.Core.Path.{◌≡◌, refl, ap, ◌∙◌}
use mathlib.Core.Bool.{Bool, true, false, ◌&&◌, ◌||◌}
use mathlib.Core.List.{[], ◌∷◌}
use mathlib.Core.Logic.{◌≢◌, inl, inr}
use native.Mathlib.Omega.{arith}
use agent_runtime_mcp.Base.Tests.{ltb, leb, ◌==◌, if◌then◌else◌, Bool-cases}
use agent_runtime_mcp.Base.Lists.{All}
use agent_runtime_mcp.Base.Chars.{Text}

abbrev pub is_digit : ℕ → Bool
is_digit c = leb b'0' c && leb c b'9'

abbrev pub is_hex : ℕ → Bool
is_hex c = is_digit c || (leb b'a' c && leb c b'f')

abbrev pub digit_char : ℕ → ℕ
digit_char d = if ltb d 10 then 48 + d else 87 + d

abbrev pub digit_value : ℕ → ℕ
digit_value c = if leb c b'9' then c - 48 else c - 87

-- The value of digits in a base, after those with value `acc`.
unfoldable pub value_from : ℕ → ℕ → Text → ℕ
value_from base acc [] = acc
value_from base acc (c ∷ s) = value_from base (acc * base + digit_value c) s

-- The digits of `n` before those of `acc`; the fuel is above the number of digits.
digits_from : ℕ → ℕ → ℕ → Text → Text
digits_from base zero n acc = acc
digits_from base (suc fuel) n acc =
    let shown = digit_char (n % base) ∷ acc in
    let rest = digits_from base fuel (n / base) shown in if n / base == 0 then shown else rest

unfoldable pub decimal : ℕ → Text
unfolding digits_from
decimal n = digits_from 10 (suc n) n []

unfoldable pub hex : ℕ → Text
unfolding digits_from
hex n = digits_from 16 (suc n) n []

digit_value-char : (d : ℕ) → d < 16 → digit_value (digit_char d) ≡ d
digit_value-char d h = ground arith

==→eq : (a b : ℕ) → (a == b) ≡ true → a ≡ b
==→eq a b h = ground arith

==→ne : (a b : ℕ) → (a == b) ≡ false → a ≢ b
==→ne a b h = ground arith

digit_char-is_hex : (d : ℕ) → d < 16 → is_hex (digit_char d) ≡ true
digit_char-is_hex d h = ground arith

value_from-digits10 :
    (fuel n : ℕ) (acc : Text)
    → n < fuel
    → value_from 10 0 (digits_from 10 fuel n acc) ≡ value_from 10 n acc
unfolding digits_from
value_from-digits10 zero n acc h = elim h [ ]
value_from-digits10 (suc fuel) n acc h = elim (Bool-cases (n / 10 == 0)) [
  | inl last ↦ rw last (
      unfold value_from in
      ap (λ v. value_from 10 v acc)
        (omega (arith, digit_value-char (n % 10), ==→eq (n / 10) 0 last)))
  | inr more ↦ rw more (
      value_from-digits10 fuel (n / 10) _ (omega (arith, ==→ne (n / 10) 0 more))
      ∙ unfold value_from in
        ap (λ v. value_from 10 v acc) (omega (arith, digit_value-char (n % 10))))
]

value_from-digits16 :
    (fuel n : ℕ) (acc : Text)
    → n < fuel
    → value_from 16 0 (digits_from 16 fuel n acc) ≡ value_from 16 n acc
unfolding digits_from
value_from-digits16 zero n acc h = elim h [ ]
value_from-digits16 (suc fuel) n acc h = elim (Bool-cases (n / 16 == 0)) [
  | inl last ↦ rw last (
      unfold value_from in
      ap (λ v. value_from 16 v acc)
        (omega (arith, digit_value-char (n % 16), ==→eq (n / 16) 0 last)))
  | inr more ↦ rw more (
      value_from-digits16 fuel (n / 16) _ (omega (arith, ==→ne (n / 16) 0 more))
      ∙ unfold value_from in
        ap (λ v. value_from 16 v acc) (omega (arith, digit_value-char (n % 16))))
]

-- Reading back what was written.
pub value_from-decimal : (n : ℕ) → value_from 10 0 (decimal n) ≡ n
unfolding decimal
value_from-decimal n = value_from-digits10 (suc n) n [] (omega arith) ∙ unfold value_from in refl

pub value_from-hex : (n : ℕ) → value_from 16 0 (hex n) ≡ n
unfolding hex
value_from-hex n = value_from-digits16 (suc n) n [] (omega arith) ∙ unfold value_from in refl

digits_from-is_hex :
    (base fuel n : ℕ) (acc : Text)
    → base ≤ 16
    → 0 < base
    → All (λ c. is_hex c ≡ true) acc
    → All (λ c. is_hex c ≡ true) (digits_from base fuel n acc)
unfolding digits_from
digits_from-is_hex base zero n acc le pos a = a
digits_from-is_hex base (suc fuel) n acc le pos a =
    let small : n % base < base = grind arith in
    let here : All (λ c. is_hex c ≡ true) (digit_char (n % base) ∷ acc) =
      (digit_char-is_hex (n % base) (omega arith), a) in
    elim (Bool-cases (n / base == 0)) [
      | inl last ↦ rw last here
      | inr more ↦ rw more (digits_from-is_hex base fuel (n / base) _ le pos here)
    ]

pub hex-is_hex : (n : ℕ) → All (λ c. is_hex c ≡ true) (hex n)
unfolding hex
hex-is_hex n = digits_from-is_hex 16 (suc n) n [] (omega arith) (omega arith) tt

pub decimal-is_hex : (n : ℕ) → All (λ c. is_hex c ≡ true) (decimal n)
unfolding decimal
decimal-is_hex n = digits_from-is_hex 10 (suc n) n [] (omega arith) (omega arith) tt

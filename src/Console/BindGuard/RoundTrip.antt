-- ===== src/Console/BindGuard/RoundTrip.antt =====
-- console/src/bind-guard.ts: IPv4 literals and their canonical form.
use agent_runtime_mcp.Base.{
  ℕ, zero, suc, ◌+◌, ◌/◌, ◌%◌, ◌<◌, ◌≤◌, Bool, true, false, not, ◌&&◌, Option, none, some, List, [],
  ◌∷◌, Text, text_eq, text_eq_iff, every, ltb, ◌==◌, if◌then◌else◌, value_from, decimal, split,
  join, join-split, split-join, Lacks, ◌≡◌, refl, sym, ap, ◌∙◌, arith, inl, inr, ◌⊎◌, Option-cases,
}
use agent_runtime_mcp.Console.BindGuard.Address.{Octets, octet, parse_parts, parse_ipv4, show_ipv4}

holds_below : (ℕ → Bool) → ℕ → Bool
holds_below test zero = true
holds_below test (suc limit) = holds_below test limit && test limit

holds_below_lem :
    (test : ℕ → Bool) (limit n : ℕ) → n < limit → holds_below test limit ≡ true → test n ≡ true
unfolding holds_below
holds_below_lem test zero n small e = absurd (omega (arith, small))
holds_below_lem test (suc limit) n small e =
    let place : (n < limit) ⊎ (n ≡ limit) = omega (arith, small) in
    elim place [
      | inl below ↦ holds_below_lem test limit n below (ground (arith, e))
      | inr last ↦ rw last (ground (arith, e))
    ]

-- The digits of a number below 1000, without leading zeros.
abbrev short_decimal : ℕ → Text
short_decimal n =
    if ltb n 10
    then (48 + n) ∷ []
    else if ltb n 100
    then (48 + n / 10) ∷ (48 + n % 10) ∷ []
    else (48 + n / 100) ∷ (48 + n / 10 % 10) ∷ (48 + n % 10) ∷ []

short_table : holds_below (λ n. text_eq (decimal n) (short_decimal n)) 1000 ≡ true
unfolding holds_below decimal text_eq
short_table = refl

decimal-short : (n : ℕ) → n < 1000 → decimal n ≡ short_decimal n
decimal-short n h = (text_eq_iff _ _).0 (holds_below_lem _ 1000 n h short_table)

-- A part that is accepted is the decimal of a number up to 255.
octet-eq-some : (t : Text) (n : ℕ) → octet t ≡ some n → (decimal n ≡ t) × (n ≤ 255)
unfolding octet value_from
octet-eq-some [] n h = absurd (cc h)
octet-eq-some (x ∷ []) n h = ground (arith, decimal-short n)
octet-eq-some (x ∷ y ∷ []) n h = ground (arith, decimal-short n)
octet-eq-some (x ∷ y ∷ z ∷ []) n h = ground (arith, decimal-short n)
octet-eq-some (x ∷ y ∷ z ∷ w ∷ t) n h = ground arith

abbrev is_value : Option ℕ → ℕ → Bool
is_value none n = false
is_value (some m) n = m == n

octet_table : holds_below (λ n. is_value (octet (decimal n)) n) 256 ≡ true
unfolding holds_below octet decimal value_from
octet_table = refl

is_value-eq : (o : Option ℕ) (n : ℕ) → is_value o n ≡ true → o ≡ some n
is_value-eq none n h = cc
is_value-eq (some m) n h = ground arith

octet-decimal : (n : ℕ) → n < 256 → octet (decimal n) ≡ some n
octet-decimal n h = is_value-eq _ n (holds_below_lem _ 256 n h octet_table)

-- Four bytes.
abbrev pub IsBytes : Octets → Type 0
IsBytes o = (o.a < 256) × (o.b < 256) × (o.c < 256) × (o.d < 256)

no_dot : Text → Bool
no_dot t = every (λ c. not (c == b'.')) t

no_dot_table : holds_below (λ n. no_dot (decimal n)) 256 ≡ true
unfolding holds_below no_dot decimal
no_dot_table = refl

no_dot-Lacks : (t : Text) → no_dot t ≡ true → Lacks b'.' t
unfolding no_dot
no_dot-Lacks [] h = tt
no_dot-Lacks (c ∷ t) h = (ground arith, no_dot-Lacks t (ground arith))

decimal-Lacks_dot : (n : ℕ) → n < 256 → Lacks b'.' (decimal n)
decimal-Lacks_dot n h = no_dot-Lacks _ (holds_below_lem _ 256 n h no_dot_table)

-- Every address of four bytes is read back from its dotted form.
pub parse_ipv4-show_ipv4 : (o : Octets) → IsBytes o → parse_ipv4 (show_ipv4 o) ≡ some o
unfolding parse_ipv4 show_ipv4
parse_ipv4-show_ipv4 o (a, b, c, d) =
    rw
      (split-join b'.' (decimal o.a) (decimal o.b ∷ decimal o.c ∷ decimal o.d ∷ []) (
        decimal-Lacks_dot o.a a,
        (decimal-Lacks_dot o.b b, (decimal-Lacks_dot o.c c, (decimal-Lacks_dot o.d d, tt))),
      ))
      (parsed)
  where
    parsed : parse_parts (decimal o.a ∷ decimal o.b ∷ decimal o.c ∷ decimal o.d ∷ []) ≡ some o
    parsed =
        unfold parse_parts in
        rw (octet-decimal o.a a, octet-decimal o.b b, octet-decimal o.c c, octet-decimal o.d d)

parse_parts-eq-some :
    (parts : List Text) (o : Octets)
    → parse_parts parts ≡ some o
    → (parts ≡ decimal o.a ∷ decimal o.b ∷ decimal o.c ∷ decimal o.d ∷ []) × IsBytes o
unfolding parse_parts
parse_parts-eq-some (p ∷ q ∷ r ∷ s ∷ []) o h =
    four (Option-cases (octet p)) (Option-cases (octet q)) (Option-cases (octet r))
      (Option-cases (octet s))
  where
    four :
        ((octet p ≡ none) ⊎ ((n : ℕ) × (octet p ≡ some n)))
        → ((octet q ≡ none) ⊎ ((n : ℕ) × (octet q ≡ some n)))
        → ((octet r ≡ none) ⊎ ((n : ℕ) × (octet r ≡ some n)))
        → ((octet s ≡ none) ⊎ ((n : ℕ) × (octet s ≡ some n)))
        → (p ∷ q ∷ r ∷ s ∷ [] ≡ decimal o.a ∷ decimal o.b ∷ decimal o.c ∷ decimal o.d ∷ [])
          × IsBytes o
    four (inr (a, ea)) (inr (b, eb)) (inr (c, ec)) (inr (d, ed)) =
        ground (arith, octet-eq-some p a, octet-eq-some q b, octet-eq-some r c, octet-eq-some s d)
    four (inl ea) _ _ _ = ground arith
    four (inr a) (inl eb) _ _ = ground arith
    four (inr a) (inr b) (inl ec) _ = ground arith
    four (inr a) (inr b) (inr c) (inl ed) = ground arith
parse_parts-eq-some parts o h = ground arith

-- What is accepted is four bytes, written in the one canonical way: no other spelling of an address
-- gets through.
pub show_ipv4-parse_ipv4 :
    (value : Text) (o : Octets) → parse_ipv4 value ≡ some o → IsBytes o × (show_ipv4 o ≡ value)
unfolding parse_ipv4 show_ipv4
show_ipv4-parse_ipv4 value o h =
    let (parts, bytes) = parse_parts-eq-some (split b'.' value) o h in
    (bytes, ap (join (b'.' ∷ [])) (sym parts) ∙ join-split b'.' value)

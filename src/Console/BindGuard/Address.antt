-- ===== src/Console/BindGuard/Address.antt =====
-- console/src/bind-guard.ts, `parseIpv4`, `parseIpv6` and the keys of addresses.
use agent_runtime_mcp.Base.{
  ℕ, zero, suc, ◌+◌, ◌-◌, ◌*◌, Bool, false, not, ◌&&◌, ◌||◌, Option, none, some, List, [], ◌∷◌,
  ◌++◌, map, Text, codes, is_empty, length, every, ltb, leb, ◌==◌, if◌then◌else◌, is_digit, is_hex,
  value_from, decimal, hex, split, join, cut_first, cut_last, has_char,
}
use mathlib.Core.Option

pub record Octets : Type 0 where
  pub a : ℕ
  pub b : ℕ
  pub c : ℕ
  pub d : ℕ

-- `part.length > 1 && part.startsWith('0')`
abbrev pub has_leading_zero : Text → Bool
has_leading_zero [] = false
has_leading_zero (x ∷ []) = false
has_leading_zero (x ∷ y ∷ rest) = x == b'0'

-- One round of the loop of `parseIpv4`: `/^[0-9]{1,3}$/`, no leading zero, at most 255.
unfoldable pub octet : Text → Option ℕ
octet part =
    if not (leb 1 (length part) && leb (length part) 3 && every is_digit part)
    then none
    else if has_leading_zero part
    then none
    else if ltb 255 (value_from 10 0 part)
    then none
    else some (value_from 10 0 part)

infixl 5 ◌>>=◌
abbrev pub ◌>>=◌ {ℓ κ} : {A : Type ℓ} {B : Type κ} → Option A → (A → Option B) → Option B
none >>= k = none
some a >>= k = k a

unfoldable pub parse_parts : List Text → Option Octets
parse_parts (p ∷ q ∷ r ∷ s ∷ []) = do
  a ← octet p
  b ← octet q
  c ← octet r
  d ← octet s
  some (record { a = a; b = b; c = c; d = d })
parse_parts parts = none

unfoldable pub parse_ipv4 : Text → Option Octets
parse_ipv4 value = parse_parts (split b'.' value)

-- `toLowerCase`; no letter outside ASCII has a lower case that the pattern below accepts.
abbrev pub to_lower : ℕ → ℕ
to_lower c = if leb b'A' c && leb c b'Z' then c + 32 else c

abbrev pub strip_zone : Text → Text
strip_zone input = elim (cut_first b'%' input) [ none ↦ input | some p ↦ p.0 ]

-- `/^[0-9a-f:.]+$/`
abbrev pub is_v6_char : ℕ → Bool
is_v6_char c = is_hex c || c == b':' || c == b'.'

-- The two groups of the last four octets: `(v4Tail[0] << 8) | v4Tail[1]`, in hexadecimal.
abbrev pub v4_groups : Octets → Text
v4_groups o = hex (o.a * 256 + o.b) ++ (b':' ∷ hex (o.c * 256 + o.d))

abbrev pub last_part : Text → Text × Text
last_part input = elim (cut_last b':' input) [
  | none ↦ ([], input)
  | some p ↦ (p.0 ++ b':' ∷ [], p.1)
]

-- An address that ends in dotted octets is rewritten in groups.
unfoldable pub replace_v4_tail : Text → Option Text
replace_v4_tail input =
    let (before, last) = last_part input in
    if has_char b'.' last
    then Option.map (λ (o : Octets). before ++ v4_groups o) (parse_ipv4 last)
    else some input

-- `/^[0-9a-f]{1,4}$/`
unfoldable pub group_value : Text → Option ℕ
group_value text =
    if leb 1 (length text) && leb (length text) 4 && every is_hex text
    then some (value_from 16 0 text)
    else none

-- The texts on both sides of the first `::`.
unfoldable pub cut_double : Text → Option (Text × Text)
cut_double [] = none
cut_double (x ∷ []) = none
cut_double (x ∷ y ∷ s) =
    let rest = Option.map (λ (p : Text × Text). (x ∷ p.0, p.1)) (cut_double (y ∷ s)) in
    if x == b':' && y == b':' then some ([], s) else rest

-- `text === '' ? [] : text.split(':').map(groupValue)`
abbrev pub groups_of : Text → List (Option ℕ)
groups_of text = if is_empty text then [] else map group_value (split b':' text)

-- `includes(null)` and the cast: all groups, or none.
abbrev pub all_some : List (Option ℕ) → Option (List ℕ)
all_some [] = some []
all_some (none ∷ gs) = none
all_some (some g ∷ gs) = Option.map (λ rest. g ∷ rest) (all_some gs)

abbrev pub zeros : ℕ → List ℕ
zeros zero = []
zeros (suc n) = 0 ∷ zeros n

abbrev pub exactly_8 : List ℕ → Option (List ℕ)
exactly_8 groups = if length groups == 8 then some groups else none

abbrev pub join_groups : List (Option ℕ) → ℕ → List (Option ℕ) → Option (List ℕ)
join_groups head fill tail = do
  hs ← all_some head
  ts ← all_some tail
  exactly_8 (hs ++ (zeros fill ++ ts))

unfoldable pub expand_groups : Text → Option (List ℕ)
expand_groups input = elim (cut_double input) [
  | none ↦ let head = groups_of input in if length head == 8 then join_groups head 0 [] else none
  | some p ↦
      let head = groups_of p.0 in
      let tail = groups_of p.1 in
      elim (cut_double p.1) [
        | some again ↦ none
        | none ↦
            if ltb (8 - length head - length tail) 1
            then none
            else join_groups head (8 - length head - length tail) tail
      ]
]

unfoldable pub parse_ipv6 : Text → Option (List ℕ)
parse_ipv6 value =
    let input = strip_zone (map to_lower value) in
    if is_empty input || not (every is_v6_char input)
    then none
    else replace_v4_tail input >>= expand_groups

-- `octets.join('.')`
unfoldable pub show_ipv4 : Octets → Text
show_ipv4 o = join (b'.' ∷ []) (decimal o.a ∷ decimal o.b ∷ decimal o.c ∷ decimal o.d ∷ [])

unfoldable pub v4_key : Octets → Text
v4_key o = codes "v4:" ++ show_ipv4 o

unfoldable pub v6_key : List ℕ → Text
v6_key groups = codes "v6:" ++ join (b':' ∷ []) (map hex groups)

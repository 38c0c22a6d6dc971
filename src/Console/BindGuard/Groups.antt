-- ===== src/Console/BindGuard/Groups.antt =====
-- console/src/bind-guard.ts: what `parseIpv6` returns, and that the key of an address names it.
use agent_runtime_mcp.Base.{
  ℕ, zero, suc, ◌-◌, ◌<◌, ◌≤◌, Bool, true, false, not, ◌&&◌, ◌||◌, Option, none, some, List, [],
  ◌∷◌, ◌++◌, map, Text, is_empty, length, drop, get_elem?, ◌≢◌, every, ltb, leb, ◌==◌,
  if◌then◌else◌, is_hex, digit_value, value_from, value_from-hex, hex, hex-is_hex, split, join,
  split-join, Lacks, All, All-append, ◌≡◌, refl, sym, ap, subst, ◌∙◌, arith, inl, inr, ◌⊎◌,
  Bool-cases, Option-cases, some-inj, none-absurd,
}
use mathlib.Core.Option
use agent_runtime_mcp.Console.BindGuard.Address.{
  Octets, group_value, cut_double, groups_of, all_some, zeros, exactly_8, join_groups,
  expand_groups, ◌>>=◌, parse_ipv4, parse_ipv6, v4_key, v6_key, replace_v4_tail, strip_zone,
  is_v6_char, to_lower,
}
use agent_runtime_mcp.Console.BindGuard.RoundTrip.{IsBytes, parse_ipv4-show_ipv4}

-- Eight groups of 16 bits.
abbrev pub IsGroups : List ℕ → Type 0
IsGroups gs = (length gs ≡ 8) × All (λ g. g < 65536) gs

abbrev AreSmall : List (Option ℕ) → Type 0
AreSmall = All (λ g. (n : ℕ) → g ≡ some n → n < 65536)

every-All : (p : ℕ → Bool) (t : Text) → every p t ≡ true → All (λ c. p c ≡ true) t
every-All p [] h = tt
every-All p (c ∷ t) h = (ground arith, every-All p t (ground arith))

group_value-eq-some :
    (t : Text) (n : ℕ)
    → group_value t ≡ some n
    → (length t ≤ 4) × All (λ c. is_hex c ≡ true) t × (value_from 16 0 t ≡ n)
unfolding group_value
group_value-eq-some t n h = elim (Bool-cases (leb 1 (length t) && leb (length t) 4)) [
  | inr bad ↦ (none-absurd (rw (bad, group_value) at h))
  | inl sized ↦ elim (Bool-cases (every is_hex t)) [
    | inr bad ↦ (none-absurd (rw (sized, bad, group_value) at h))
    | inl good ↦
        (ground arith, every-All is_hex t good, some-inj (rw (sized, good, group_value) at h))
  ]
]

is_hex-value : (c : ℕ) → is_hex c ≡ true → digit_value c < 16
is_hex-value c h = ground arith

value_from-small :
    (t : Text) → length t ≤ 4 → All (λ c. is_hex c ≡ true) t → value_from 16 0 t < 65536
unfolding value_from
value_from-small [] l a = omega arith
value_from-small (x ∷ []) l a = omega (arith, is_hex-value x a.0)
value_from-small (x ∷ y ∷ []) l a = omega (arith, is_hex-value x a.0, is_hex-value y a.1.0)
value_from-small (x ∷ y ∷ z ∷ []) l a =
    omega (arith, is_hex-value x a.0, is_hex-value y a.1.0, is_hex-value z a.1.1.0)
value_from-small (x ∷ y ∷ z ∷ w ∷ []) l a = omega (
  arith,
  is_hex-value x a.0,
  is_hex-value y a.1.0,
  is_hex-value z a.1.1.0,
  is_hex-value w a.1.1.1.0,
)
value_from-small (x ∷ y ∷ z ∷ w ∷ v ∷ t) l a = absurd (omega arith)

group_value-small : (t : Text) (n : ℕ) → group_value t ≡ some n → n < 65536
group_value-small t n h =
    let (short, hexes, same) = group_value-eq-some t n h in
    subst (λ m. m < 65536) same (value_from-small t short hexes)

map-small : (ts : List Text) → AreSmall (map group_value ts)
map-small [] = tt
map-small (t ∷ ts) = (group_value-small t, map-small ts)

groups_of-small : (t : Text) → AreSmall (groups_of t)
groups_of-small [] = tt
groups_of-small (c ∷ t) = map-small (split b':' (c ∷ t))

all_some-small :
    (gs : List (Option ℕ)) (ns : List ℕ)
    → AreSmall gs
    → all_some gs ≡ some ns
    → All (λ g. g < 65536) ns
all_some-small [] ns s h = subst (All (λ g. g < 65536)) (some-inj h) tt
all_some-small (none ∷ gs) ns s h = cc
all_some-small (some g ∷ gs) ns (p, s) h =
    let (rest, parsed, same) = (Option.map-eq-some_iff _ _).0 h in
    subst (All (λ g. g < 65536)) same (p g refl, all_some-small gs rest s parsed)

zeros-small : (n : ℕ) → All (λ g. g < 65536) (zeros n)
zeros-small zero = tt
zeros-small (suc n) = (omega arith, zeros-small n)

join_groups-IsGroups :
    (head : List (Option ℕ)) (fill : ℕ) (tail : List (Option ℕ)) (gs : List ℕ)
    → AreSmall head
    → AreSmall tail
    → join_groups head fill tail ≡ some gs
    → IsGroups gs
join_groups-IsGroups head fill tail gs sh st h =
    go (Option-cases (all_some head)) (Option-cases (all_some tail))
  where
    finish : (all : List ℕ) → All (λ g. g < 65536) all → exactly_8 all ≡ some gs → IsGroups gs
    finish all small e = elim (Bool-cases (length all == 8)) [
      | inl eight ↦
          let same : all ≡ gs = some-inj (rw (eight, exactly_8) at e) in
          subst IsGroups same (ground arith, small)
      | inr other ↦ (none-absurd (rw (other, exactly_8) at e))
    ]

    go :
        ((all_some head ≡ none) ⊎ ((hs : List ℕ) × (all_some head ≡ some hs)))
        → ((all_some tail ≡ none) ⊎ ((ts : List ℕ) × (all_some tail ≡ some ts)))
        → IsGroups gs
    go (inl eh) _ = (none-absurd (rw eh at h))
    go (inr (hs, eh)) (inl et) = (none-absurd (rw (eh, et) at h))
    go (inr (hs, eh)) (inr (ts, et)) =
        let small : All (λ g. g < 65536) (hs ++ (zeros fill ++ ts)) =
          All-append _ hs _ (all_some-small head hs sh eh)
            (All-append _ (zeros fill) ts (zeros-small fill) (all_some-small tail ts st et)) in
        let whole : exactly_8 (hs ++ (zeros fill ++ ts)) ≡ some gs = rw (eh, et) at h in
        finish (hs ++ (zeros fill ++ ts)) small whole

expand_groups-IsGroups : (t : Text) (gs : List ℕ) → expand_groups t ≡ some gs → IsGroups gs
unfolding expand_groups
expand_groups-IsGroups t gs h = elim (Option-cases (cut_double t)) [
  | inl plain ↦ whole (rw (plain, expand_groups) at h)
  | inr (p, cut) ↦ elim (Option-cases (cut_double p.1)) [
    | inr (q, again) ↦ none-absurd (rw (cut, again, expand_groups) at h)
    | inl once ↦ parts p (rw (cut, once, expand_groups) at h)
  ]
]
  where
    whole :
        (if length (groups_of t) == 8 then join_groups (groups_of t) 0 [] else none) ≡ some gs
        → IsGroups gs
    whole e = elim (Bool-cases (length (groups_of t) == 8)) [
      | inl eight ↦ join_groups-IsGroups _ 0 [] gs (groups_of-small t) tt (rw eight at e)
      | inr other ↦ none-absurd (rw other at e)
    ]

    parts :
        (p : Text × Text)
        → (if ltb (8 - length (groups_of p.0) - length (groups_of p.1)) 1
            then none
            else join_groups
                (groups_of p.0)
                (8 - length (groups_of p.0) - length (groups_of p.1))
                (groups_of p.1))
          ≡ some gs
        → IsGroups gs
    parts p e = elim (Bool-cases (ltb (8 - length (groups_of p.0) - length (groups_of p.1)) 1)) [
      | inl full ↦ none-absurd (rw full at e)
      | inr room ↦
          join_groups-IsGroups _ _ _ gs (groups_of-small p.0) (groups_of-small p.1) (rw room at e)
    ]

-- An IPv6 literal that is accepted has eight groups of 16 bits.
pub parse_ipv6-IsGroups : (value : Text) (gs : List ℕ) → parse_ipv6 value ≡ some gs → IsGroups gs
unfolding parse_ipv6
parse_ipv6-IsGroups value gs h =
    guarded (is_empty input || not (every is_v6_char input)) (replace_v4_tail input) h
  where
    input : Text
    input = strip_zone (map to_lower value)

    guarded :
        (bad : Bool) (tail : Option Text)
        → (if bad then none else tail >>= expand_groups) ≡ some gs
        → IsGroups gs
    guarded true tail e = none-absurd e
    guarded false none e = none-absurd e
    guarded false (some t) e = expand_groups-IsGroups t gs e

hex-Lacks_colon : (n : ℕ) → Lacks b':' (hex n)
hex-Lacks_colon n = All-weaken (hex n) (hex-is_hex n)
  where
    All-weaken : (t : Text) → All (λ c. is_hex c ≡ true) t → Lacks b':' t
    All-weaken [] a = tt
    All-weaken (c ∷ t) a = (ground arith, All-weaken t a.1)

map-hex-Lacks : (gs : List ℕ) → All (Lacks b':') (map hex gs)
map-hex-Lacks [] = tt
map-hex-Lacks (g ∷ gs) = (hex-Lacks_colon g, map-hex-Lacks gs)

map-hex-injective : (gs hs : List ℕ) → map hex gs ≡ map hex hs → gs ≡ hs
map-hex-injective [] [] e = refl
map-hex-injective [] (h ∷ hs) e = cc
map-hex-injective (g ∷ gs) [] e = cc
map-hex-injective (g ∷ gs) (h ∷ hs) e =
    let heads : hex g ≡ hex h = cc in
    let same : g ≡ h = sym (value_from-hex g) ∙ ap (value_from 16 0) heads ∙ value_from-hex h in
    let rest : map hex gs ≡ map hex hs = cc in cc (same, map-hex-injective gs hs rest)

split-map-hex :
    (gs : List ℕ) → length gs ≡ 8 → split b':' (join (b':' ∷ []) (map hex gs)) ≡ map hex gs
split-map-hex [] h = absurd (omega arith)
split-map-hex (g ∷ gs) h = split-join b':' (hex g) (map hex gs) (map-hex-Lacks (g ∷ gs))

-- The keys of two addresses are the same only if the addresses are.
pub v6_key-injective :
    (gs hs : List ℕ) → IsGroups gs → IsGroups hs → v6_key gs ≡ v6_key hs → gs ≡ hs
unfolding v6_key
v6_key-injective gs hs vg vh e =
    map-hex-injective gs hs
      (sym (split-map-hex gs vg.0) ∙ ap (λ t. split b':' (drop 3 t)) e ∙ split-map-hex hs vh.0)

pub v4_key-injective : (o p : Octets) → IsBytes o → IsBytes p → v4_key o ≡ v4_key p → o ≡ p
unfolding v4_key
v4_key-injective o p vo vp e = some-inj (
    sym (parse_ipv4-show_ipv4 o vo) ∙ ap (λ t. parse_ipv4 (drop 3 t)) e ∙ parse_ipv4-show_ipv4 p vp)

pub v4_key-ne-v6_key : (o : Octets) (gs : List ℕ) → v4_key o ≢ v6_key gs
unfolding v4_key v6_key
v4_key-ne-v6_key o gs e = ground (arith, ap (λ t. get_elem? t 1) e)

-- ===== src/Console/BindGuard/Assigned.antt =====
-- console/src/bind-guard.ts, `collectInterfaceAddresses`: a key in the set stands for an address
-- of an interface.
use agent_runtime_mcp.Base.{
  ℕ, true, ◌||◌, Option, none, some, List, [], ◌∷◌, ◌++◌, Text, text_eq_iff, ◌≡◌, refl, sym, ap,
  ◌∙◌, arith, inl, inr, ◌⊎◌, Bool-cases, Option-cases, some-inj, none-absurd,
}
use agent_runtime_mcp.Console.BindGuard.{
  has, add, add_address, collect_from, collect_interface_addresses,
}
use agent_runtime_mcp.Console.BindGuard.Address.{Octets, parse_ipv4, parse_ipv6, v4_key, v6_key}
use agent_runtime_mcp.Console.BindGuard.RoundTrip.{IsBytes, show_ipv4-parse_ipv4}
use agent_runtime_mcp.Console.BindGuard.Groups.{
  IsGroups, parse_ipv6-IsGroups, v6_key-injective, v4_key-injective, v4_key-ne-v6_key,
}

-- The key under which an address is added, if it is an IP literal.
abbrev key_of : Text → Option Text
key_of address = elim (parse_ipv4 address) [
  | some v4 ↦ some (v4_key v4)
  | none ↦ elim (parse_ipv6 address) [ some v6 ↦ some (v6_key v6) | none ↦ none ]
]

-- One of the addresses satisfies `P`.
abbrev pub Some : (Text → Type 0) → List Text → Type 0
Some P [] = ⊥
Some P (t ∷ ts) = P t ⊎ Some P ts

has-append : (s t : List Text) (k : Text) → has (s ++ t) k ≡ (has s k || has t k)
has-append [] t k = refl
has-append (x ∷ s) t k = ground (arith, has-append s t k)

has-add :
    (key : Text) (s : List Text) (k : Text)
    → has (add key s) k ≡ true
    → (has s k ≡ true) ⊎ (key ≡ k)
has-add key s k h = elim (Bool-cases (has s key)) [
  | inl old ↦ inl (rw old at h)
  | inr new ↦
      let h' : has (s ++ key ∷ []) k ≡ true = rw new at h in
      ground (arith, has-append s (key ∷ []) k, text_eq_iff key k)
]

has-add_address :
    (t : Text) (s : List Text) (k : Text)
    → has (add_address t s) k ≡ true
    → (has s k ≡ true) ⊎ (key_of t ≡ some k)
has-add_address t s k h = elim (Option-cases (parse_ipv4 t)) [
  | inr (v4, four) ↦ elim (has-add (v4_key v4) s k (rw (four, add_address) at h)) [
    | inl old ↦ inl old
    | inr same ↦ inr (rw (four, key_of) (ap some same))
  ]
  | inl not_four ↦ elim (Option-cases (parse_ipv6 t)) [
    | inr (v6, six) ↦ elim (has-add (v6_key v6) s k (rw (not_four, six, add_address) at h)) [
      | inl old ↦ inl old
      | inr same ↦ inr (rw (not_four, six, key_of) (ap some same))
    ]
    | inl neither ↦ inl (rw (not_four, neither, add_address) at h)
  ]
]

has-collect_from :
    (s ts : List Text) (k : Text)
    → has (collect_from s ts) k ≡ true
    → (has s k ≡ true) ⊎ Some (λ t. key_of t ≡ some k) ts
unfolding collect_from
has-collect_from s [] k h = inl h
has-collect_from s (t ∷ ts) k h = elim (has-collect_from (add_address t s) ts k h) [
  | inr later ↦ inr (inr later)
  | inl early ↦ elim (has-add_address t s k early) [ inl old ↦ inl old | inr here ↦ inr (inl here) ]
]

Some-map : {P Q : Text → Type 0} (ts : List Text) → ((t : Text) → P t → Q t) → Some P ts → Some Q ts
Some-map [] f s = s
Some-map (t ∷ ts) f (inl p) = inl (f t p)
Some-map (t ∷ ts) f (inr s) = inr (Some-map ts f s)

collected :
    (ts : List Text) (k : Text)
    → has (collect_interface_addresses ts) k ≡ true
    → Some (λ t. key_of t ≡ some k) ts
unfolding collect_interface_addresses
collected ts k h = elim (has-collect_from [] ts k h) [ inl e ↦ cc | inr s ↦ s ]

key_of-v4 : (o : Octets) (t : Text) → IsBytes o → key_of t ≡ some (v4_key o) → parse_ipv4 t ≡ some o
key_of-v4 o t bytes h = elim (Option-cases (parse_ipv4 t)) [
  | inr (p, four) ↦
      let keys : v4_key p ≡ v4_key o = some-inj (rw (four, key_of) at h) in
      four ∙ ap some (v4_key-injective p o (show_ipv4-parse_ipv4 t p four).0 bytes keys)
  | inl not_four ↦ elim (Option-cases (parse_ipv6 t)) [
    | inr (gs, six) ↦
        absurd (v4_key-ne-v6_key o gs (sym (some-inj (rw (not_four, six, key_of) at h))))
    | inl neither ↦ none-absurd (rw (not_four, neither, key_of) at h)
  ]
]

key_of-v6 :
    (gs : List ℕ) (t : Text)
    → IsGroups gs
    → key_of t ≡ some (v6_key gs)
    → (parse_ipv4 t ≡ none) × (parse_ipv6 t ≡ some gs)
key_of-v6 gs t groups h = elim (Option-cases (parse_ipv4 t)) [
  | inr (p, four) ↦ absurd (v4_key-ne-v6_key p gs (some-inj (rw (four, key_of) at h)))
  | inl not_four ↦ elim (Option-cases (parse_ipv6 t)) [
    | inr (hs, six) ↦
        let keys : v6_key hs ≡ v6_key gs = some-inj (rw (not_four, six, key_of) at h) in
        (
          not_four,
          six ∙ ap some (v6_key-injective hs gs (parse_ipv6-IsGroups t hs six) groups keys),
        )
    | inl neither ↦ none-absurd (rw (not_four, neither, key_of) at h)
  ]
]

-- The key of an IPv4 address is collected only from an interface with that very address.
pub has-v4_key :
    (ts : List Text) (o : Octets)
    → IsBytes o
    → has (collect_interface_addresses ts) (v4_key o) ≡ true
    → Some (λ t. parse_ipv4 t ≡ some o) ts
has-v4_key ts o bytes h = Some-map ts (λ t. key_of-v4 o t bytes) (collected ts (v4_key o) h)

pub has-v6_key :
    (ts : List Text) (gs : List ℕ)
    → IsGroups gs
    → has (collect_interface_addresses ts) (v6_key gs) ≡ true
    → Some (λ t. (parse_ipv4 t ≡ none) × (parse_ipv6 t ≡ some gs)) ts
has-v6_key ts gs groups h = Some-map ts (λ t. key_of-v6 gs t groups) (collected ts (v6_key gs) h)

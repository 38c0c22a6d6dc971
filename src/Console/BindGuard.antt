-- ===== src/Console/BindGuard.antt =====
-- console/src/bind-guard.ts: which addresses the console may listen on. The set of assigned
-- addresses is the list of its keys. The texts of the reasons are constructors.
pub mod Address
pub mod RoundTrip
pub mod Groups
pub mod Assigned
pub mod Safe
use agent_runtime_mcp.Base.{
  ℕ, zero, suc, ◌+◌, ◌/◌, ◌%◌, Bool, true, false, ◌&&◌, Option, none, some, List, [], ◌∷◌, ◌++◌,
  Text, text_eq, any, every, leb, ◌==◌, if◌then◌else◌,
}
use Address.{Octets, parse_ipv4, parse_ipv6, show_ipv4, v4_key, v6_key}

pub data Reason : Type 0 where
  tailscale_v4_not_assigned tailscale_v6_not_assigned not_v4_allowed not_v6_allowed : Reason
  not_an_ip_literal : Reason

pub data BindVerdict : Type 0 where
  allowed : Text → ℕ → BindVerdict
  refused : Text → Reason → BindVerdict

-- `assigned.has(key)`
abbrev pub has : List Text → Text → Bool
has assigned key = any (λ k. text_eq k key) assigned

-- `assigned.add(key)`
abbrev add : Text → List Text → List Text
add key assigned = if has assigned key then assigned else assigned ++ key ∷ []

abbrev add_address : Text → List Text → List Text
add_address address assigned = elim (parse_ipv4 address) [
  | some v4 ↦ add (v4_key v4) assigned
  | none ↦ elim (parse_ipv6 address) [ some v6 ↦ add (v6_key v6) assigned | none ↦ assigned ]
]

unfoldable pub collect_from : List Text → List Text → List Text
collect_from assigned [] = assigned
collect_from assigned (address ∷ addresses) = collect_from (add_address address assigned) addresses

-- The addresses of all interfaces, in the order in which they are listed.
unfoldable pub collect_interface_addresses : List Text → List Text
collect_interface_addresses addresses = collect_from [] addresses

abbrev is_v4_mapped : List ℕ → Bool
is_v4_mapped (a ∷ b ∷ c ∷ d ∷ e ∷ f ∷ rest) =
    every (λ g. g == 0) (a ∷ b ∷ c ∷ d ∷ e ∷ []) && f == 0xffff
is_v4_mapped groups = false

-- `v6[6] >> 8`, `v6[6] & 0xff` and so on
abbrev embedded : List ℕ → Octets
embedded (a ∷ b ∷ c ∷ d ∷ e ∷ f ∷ g ∷ h ∷ rest) = record {
  a = g / 256;
  b = g % 256;
  c = h / 256;
  d = h % 256;
}
embedded groups = record { a = 0; b = 0; c = 0; d = 0 }

abbrev is_loopback_v6 : List ℕ → Bool
is_loopback_v6 (a ∷ b ∷ c ∷ d ∷ e ∷ f ∷ g ∷ h ∷ []) =
    every (λ x. x == 0) (a ∷ b ∷ c ∷ d ∷ e ∷ f ∷ g ∷ []) && h == 1
is_loopback_v6 groups = false

abbrev is_tailscale_v6 : List ℕ → Bool
is_tailscale_v6 (a ∷ b ∷ c ∷ rest) = a == 0xfd7a && b == 0x115c && c == 0xa1e0
is_tailscale_v6 groups = false

-- The branch for an IPv4 literal.
unfoldable pub evaluate_v4 : Text → List Text → Octets → BindVerdict
evaluate_v4 bind assigned v4 =
    if v4.a == 127
    then allowed bind 4
    else if v4.a == 100 && leb 64 v4.b && leb v4.b 127
    then if has assigned (v4_key v4) then allowed bind 4 else refused bind tailscale_v4_not_assigned
    else refused bind not_v4_allowed

-- `inner.allowed ? … : …`
abbrev relay : Text → BindVerdict → BindVerdict
relay bind (allowed inner family) = allowed bind 6
relay bind (refused inner reason) = refused bind reason

-- The branch for an IPv6 literal; `inner` is the function's call of itself.
pub evaluate_v6 : (Text → Option BindVerdict) → Text → List Text → List ℕ → Option BindVerdict
evaluate_v6 inner bind assigned v6 =
    if is_v4_mapped v6
    then elim (inner (show_ipv4 (embedded v6))) [
      | none ↦ none
      | some verdict ↦ some (relay bind verdict)
    ]
    else if is_loopback_v6 v6
    then some (allowed bind 6)
    else if is_tailscale_v6 v6
    then (if has assigned (v6_key v6)
        then some (allowed bind 6)
        else some (refused bind tailscale_v6_not_assigned))
    else some (refused bind not_v6_allowed)

-- `none` is fuel that ran out; the function calls itself once at most.
unfoldable pub evaluate_from : ℕ → Text → List Text → Option BindVerdict
evaluate_from zero bind assigned = none
evaluate_from (suc fuel) bind assigned = elim (parse_ipv4 bind) [
  | some v4 ↦ some (evaluate_v4 bind assigned v4)
  | none ↦ elim (parse_ipv6 bind) [
    | some v6 ↦ evaluate_v6 (λ b. evaluate_from fuel b assigned) bind assigned v6
    | none ↦ some (refused bind not_an_ip_literal)
  ]
]

unfoldable pub evaluate_bind_address : Text → List Text → Option BindVerdict
evaluate_bind_address bind assigned = evaluate_from 2 bind assigned

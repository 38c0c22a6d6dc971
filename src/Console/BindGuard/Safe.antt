-- ===== src/Console/BindGuard/Safe.antt =====
-- console/src/bind-guard.ts, `evaluateBindAddress`: it always answers, and allows only loopback and
-- local Tailscale addresses.
use agent_runtime_mcp.Base.{
  ℕ, ◌/◌, ◌%◌, ◌≤◌, Bool, true, false, ◌&&◌, none, some, List, [], ◌∷◌, Text, leb, ◌==◌,
  if◌then◌else◌, ◌≡◌, refl, sym, ◌∙◌, arith, inl, inr, ◌⊎◌, Bool-cases, Option-cases, some-inj,
  subst,
}
use agent_runtime_mcp.Console.BindGuard.{
  BindVerdict, allowed, refused, tailscale_v6_not_assigned, not_v6_allowed, not_an_ip_literal, has,
  is_v4_mapped, embedded, is_loopback_v6, is_tailscale_v6, evaluate_v4, relay, evaluate_v6,
  evaluate_from, evaluate_bind_address, collect_interface_addresses,
}
use agent_runtime_mcp.Console.BindGuard.Address.{
  Octets, parse_ipv4, parse_ipv6, show_ipv4, v4_key, v6_key,
}
use agent_runtime_mcp.Console.BindGuard.RoundTrip.{
  IsBytes, show_ipv4-parse_ipv4, parse_ipv4-show_ipv4,
}
use agent_runtime_mcp.Console.BindGuard.Groups.{IsGroups, parse_ipv6-IsGroups}
use agent_runtime_mcp.Console.BindGuard.Assigned.{Some, has-v4_key, has-v6_key}

embedded-IsBytes : (gs : List ℕ) → IsGroups gs → IsBytes (embedded gs)
embedded-IsBytes (a ∷ b ∷ c ∷ d ∷ e ∷ f ∷ g ∷ h ∷ gs) v =
    (omega arith, omega arith, omega arith, omega arith)
embedded-IsBytes gs v = (omega arith, omega arith, omega arith, omega arith)

-- The call of itself gets an IPv4 literal, so it does not call again.
inner-eq :
    (assigned : List Text) (gs : List ℕ)
    → IsGroups gs
    → evaluate_from 1 (show_ipv4 (embedded gs)) assigned
      ≡ some (evaluate_v4 (show_ipv4 (embedded gs)) assigned (embedded gs))
unfolding evaluate_from
inner-eq assigned gs v =
    rw (parse_ipv4-show_ipv4 (embedded gs) (embedded-IsBytes gs v), evaluate_from)

-- A loopback address, or one of 100.64.0.0/10 that an interface has.
abbrev pub IsPermittedV4 : List Text → Octets → Type 0
IsPermittedV4 addresses o =
    (o.a ≡ 127)
    ⊎ ((o.a ≡ 100) × (64 ≤ o.b) × (o.b ≤ 127) × Some (λ t. parse_ipv4 t ≡ some o) addresses)

-- An IPv4-mapped address of that kind, ::1, or one of fd7a:115c:a1e0::/48 that an interface has.
pub data IsPermittedV6 (addresses : List Text) (gs : List ℕ) : Type 0 where
  mapped :
      (g h : ℕ)
      → gs ≡ 0 ∷ 0 ∷ 0 ∷ 0 ∷ 0 ∷ 0xffff ∷ g ∷ h ∷ []
      → IsPermittedV4 addresses (record { a = g / 256; b = g % 256; c = h / 256; d = h % 256 })
      → IsPermittedV6 addresses gs
  loopback : gs ≡ 0 ∷ 0 ∷ 0 ∷ 0 ∷ 0 ∷ 0 ∷ 0 ∷ 1 ∷ [] → IsPermittedV6 addresses gs
  tailscale :
      (rest : List ℕ)
      → gs ≡ 0xfd7a ∷ 0x115c ∷ 0xa1e0 ∷ rest
      → Some (λ t. (parse_ipv4 t ≡ none) × (parse_ipv6 t ≡ some gs)) addresses
      → IsPermittedV6 addresses gs

abbrev pub IsPermitted : List Text → Text → Type 0
IsPermitted addresses bind =
    ((o : Octets) × (parse_ipv4 bind ≡ some o) × IsPermittedV4 addresses o)
    ⊎ ((gs : List ℕ) × (parse_ipv6 bind ≡ some gs) × IsPermittedV6 addresses gs)

abbrev IsAllowed : BindVerdict → Type 0
IsAllowed (allowed bind family) = Unit
IsAllowed (refused bind reason) = ⊥

evaluate_v4_sound :
    (addresses : List Text) (bind : Text) (o : Octets)
    → IsBytes o
    → IsAllowed (evaluate_v4 bind (collect_interface_addresses addresses) o)
    → IsPermittedV4 addresses o
unfolding evaluate_v4
evaluate_v4_sound addresses bind o bytes h = elim (Bool-cases (o.a == 127)) [
  | inl loop ↦ inl (ground arith)
  | inr other ↦ elim (Bool-cases (o.a == 100 && leb 64 o.b && leb o.b 127)) [
    | inr outside ↦ absurd (rw (other, outside) at h)
    | inl cgnat ↦ elim (Bool-cases (has (collect_interface_addresses addresses) (v4_key o))) [
      | inl assigned ↦
          inr (ground arith, ground arith, ground arith, has-v4_key addresses o bytes assigned)
      | inr missing ↦ absurd (rw (other, cgnat, missing) at h)
    ]
  ]
]

mapped_form :
    (gs : List ℕ)
    → IsGroups gs
    → is_v4_mapped gs ≡ true
    → (g : ℕ) × (h : ℕ) × (gs ≡ 0 ∷ 0 ∷ 0 ∷ 0 ∷ 0 ∷ 0xffff ∷ g ∷ h ∷ [])
mapped_form (a ∷ b ∷ c ∷ d ∷ e ∷ f ∷ g ∷ h ∷ []) v m = (g, h, ground arith)
mapped_form (a ∷ b ∷ c ∷ d ∷ e ∷ f ∷ g ∷ h ∷ i ∷ gs) v m = absurd (omega (arith, v.0))
mapped_form [] v m = cc
mapped_form gs v m = absurd (omega (arith, v.0))

loopback_form : (gs : List ℕ) → is_loopback_v6 gs ≡ true → gs ≡ 0 ∷ 0 ∷ 0 ∷ 0 ∷ 0 ∷ 0 ∷ 0 ∷ 1 ∷ []
loopback_form (a ∷ b ∷ c ∷ d ∷ e ∷ f ∷ g ∷ h ∷ []) m = ground arith
loopback_form gs m = cc

tailscale_form :
    (gs : List ℕ)
    → is_tailscale_v6 gs ≡ true
    → (rest : List ℕ) × (gs ≡ 0xfd7a ∷ 0x115c ∷ 0xa1e0 ∷ rest)
tailscale_form (a ∷ b ∷ c ∷ rest) m = (rest, ground arith)
tailscale_form gs m = absurd (cc m)

-- The verdict on an IPv6 literal, with the call of itself replaced by its result.
abbrev verdict_v6 : Text → List Text → List ℕ → BindVerdict
verdict_v6 bind assigned gs =
    if is_v4_mapped gs
    then relay bind (evaluate_v4 (show_ipv4 (embedded gs)) assigned (embedded gs))
    else if is_loopback_v6 gs
    then allowed bind 6
    else if is_tailscale_v6 gs
    then (if has assigned (v6_key gs)
        then allowed bind 6
        else refused bind tailscale_v6_not_assigned)
    else refused bind not_v6_allowed

evaluate_v6-eq :
    (bind : Text) (assigned : List Text) (gs : List ℕ)
    → IsGroups gs
    → evaluate_v6 (λ b. evaluate_from 1 b assigned) bind assigned gs
      ≡ some (verdict_v6 bind assigned gs)
unfolding evaluate_v6
evaluate_v6-eq bind assigned gs v = elim (Bool-cases (is_v4_mapped gs)) [
  | inl in_v4 ↦ rw (in_v4, inner-eq assigned gs v)
  | inr plain ↦ elim (Bool-cases (is_loopback_v6 gs)) [
    | inl loop ↦ rw (plain, loop)
    | inr other ↦ rw (plain, other) (tailnet (is_tailscale_v6 gs) (has assigned (v6_key gs)))
  ]
]
  where
    tailnet :
        (inside held : Bool)
        → (if inside
            then (if held
                then some (allowed bind 6)
                else some (refused bind tailscale_v6_not_assigned))
            else some (refused bind not_v6_allowed))
          ≡ some (
              if inside
              then (if held then allowed bind 6 else refused bind tailscale_v6_not_assigned)
              else refused bind not_v6_allowed)
    tailnet true true = refl
    tailnet true false = refl
    tailnet false held = refl

abbrev verdict_of : Text → List Text → BindVerdict
verdict_of bind assigned = elim (parse_ipv4 bind) [
  | some v4 ↦ evaluate_v4 bind assigned v4
  | none ↦ elim (parse_ipv6 bind) [
    | some gs ↦ verdict_v6 bind assigned gs
    | none ↦ refused bind not_an_ip_literal
  ]
]

evaluate_bind_address-eq :
    (bind : Text) (assigned : List Text)
    → evaluate_bind_address bind assigned ≡ some (verdict_of bind assigned)
unfolding evaluate_bind_address evaluate_from
evaluate_bind_address-eq bind assigned = elim (Option-cases (parse_ipv4 bind)) [
  | inr (v4, four) ↦ rw (four, evaluate_from, verdict_of)
  | inl not_four ↦ elim (Option-cases (parse_ipv6 bind)) [
    | inr (gs, six) ↦
        rw (not_four, six, evaluate_from, verdict_of)
          (evaluate_v6-eq bind assigned gs (parse_ipv6-IsGroups bind gs six))
    | inl neither ↦ rw (not_four, neither, evaluate_from, verdict_of)
  ]
]

-- `evaluateBindAddress` always answers: the one call that it makes of itself ends.
pub evaluate_bind_address-total :
    (bind : Text) (assigned : List Text)
    → (verdict : BindVerdict) × (evaluate_bind_address bind assigned ≡ some verdict)
evaluate_bind_address-total bind assigned =
    (verdict_of bind assigned, evaluate_bind_address-eq bind assigned)

relay-IsAllowed : (v : BindVerdict) (bind : Text) → IsAllowed (relay bind v) → IsAllowed v
relay-IsAllowed (allowed inner family) bind h = tt
relay-IsAllowed (refused inner reason) bind h = h

verdict_v6_sound :
    (addresses : List Text) (bind : Text) (gs : List ℕ)
    → IsGroups gs
    → IsAllowed (verdict_v6 bind (collect_interface_addresses addresses) gs)
    → IsPermittedV6 addresses gs
verdict_v6_sound addresses bind gs v h = elim (Bool-cases (is_v4_mapped gs)) [
  | inl in_v4 ↦
      let (g, k, form) = mapped_form gs v in_v4 in
      let inner =
        evaluate_v4_sound addresses (show_ipv4 (embedded gs)) (embedded gs) (embedded-IsBytes gs v)
          (relay-IsAllowed _ bind (rw in_v4 at h)) in
      mapped g k form (subst (λ l. IsPermittedV4 addresses (embedded l)) form inner)
  | inr plain ↦ elim (Bool-cases (is_loopback_v6 gs)) [
    | inl loop ↦ loopback (loopback_form gs loop)
    | inr other ↦ elim (Bool-cases (is_tailscale_v6 gs)) [
      | inr outside ↦ absurd (rw (plain, other, outside) at h)
      | inl inside ↦ elim (Bool-cases (has (collect_interface_addresses addresses) (v6_key gs))) [
        | inl held ↦
            let (rest, form) = tailscale_form gs inside in
            tailscale rest form (has-v6_key addresses gs v held)
        | inr missing ↦ absurd (rw (plain, other, inside, missing) at h)
      ]
    ]
  ]
]

-- With the addresses of the local interfaces, only this is allowed: a loopback address, an address of
-- 100.64.0.0/10 or of fd7a:115c:a1e0::/48 that some interface has, or an IPv4 one of these written
-- as an IPv4-mapped IPv6 address.
pub evaluate_bind_address_sound :
    (addresses : List Text) (bind : Text) (family : ℕ) (shown : Text)
    → evaluate_bind_address bind (collect_interface_addresses addresses)
      ≡ some (allowed shown family)
    → IsPermitted addresses bind
evaluate_bind_address_sound addresses bind family shown h =
    sound (some-inj (sym (evaluate_bind_address-eq bind _) ∙ h))
  where
    sound :
        verdict_of bind (collect_interface_addresses addresses) ≡ allowed shown family
        → IsPermitted addresses bind
    sound e = elim (Option-cases (parse_ipv4 bind)) [
      | inr (v4, four) ↦ inl (
        v4,
        four,
        evaluate_v4_sound addresses bind v4 (show_ipv4-parse_ipv4 bind v4 four).0
            (subst IsAllowed (sym (rw (four, verdict_of) at e)) tt),
      )
      | inl not_four ↦ elim (Option-cases (parse_ipv6 bind)) [
        | inr (gs, six) ↦ inr (
          gs,
          six,
          verdict_v6_sound addresses bind gs (parse_ipv6-IsGroups bind gs six)
              (subst IsAllowed (sym (rw (not_four, six, verdict_of) at e)) tt),
        )
        | inl neither ↦ absurd (subst IsAllowed (sym (rw (not_four, neither, verdict_of) at e)) tt)
      ]
    ]

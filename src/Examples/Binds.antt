-- ===== src/Examples/Binds.antt =====
-- Witnesses for console/src/bind-guard.ts.
use agent_runtime_mcp.Base.{
  some, List, [], ◌∷◌, Text, codes, text_eq, value_from, split, join, cut_first, cut_last, hex,
  decimal, ◌≡◌, refl,
}
use agent_runtime_mcp.Console.BindGuard.Address.{
  Octets, parse_ipv4, parse_parts, octet, parse_ipv6, expand_groups, cut_double, replace_v4_tail,
  group_value, show_ipv4, v4_key, v6_key,
}
use agent_runtime_mcp.Console.BindGuard.RoundTrip.{IsBytes, show_ipv4-parse_ipv4}
use agent_runtime_mcp.Console.BindGuard.Groups.{IsGroups, parse_ipv6-IsGroups}
use agent_runtime_mcp.Console.BindGuard.{
  BindVerdict, allowed, collect_from, collect_interface_addresses, evaluate_v4, evaluate_from,
  evaluate_bind_address,
}
use agent_runtime_mcp.Console.BindGuard.Safe.{
  IsPermitted, evaluate_bind_address_sound, evaluate_bind_address-total,
}

abbrev interfaces : List Text
interfaces = codes "127.0.0.1" ∷ codes "fe80::1%eth0" ∷ codes "100.64.0.7" ∷ []

abbrev local : Octets
local = record { a = 127; b = 0; c = 0; d = 1 }

evaluate_bind_address-total_example :
    (verdict : BindVerdict) × (evaluate_bind_address
        (codes "::ffff:100.64.0.7")
        (collect_interface_addresses interfaces)
      ≡ some verdict)
evaluate_bind_address-total_example =
    evaluate_bind_address-total (codes "::ffff:100.64.0.7") (collect_interface_addresses interfaces)

tailscale_allowed :
    evaluate_bind_address (codes "100.64.0.7") (collect_interface_addresses interfaces)
    ≡ some (allowed (codes "100.64.0.7") 4)
unfolding evaluate_bind_address collect_interface_addresses collect_from evaluate_from evaluate_v4
    parse_ipv4 parse_parts octet value_from split parse_ipv6 replace_v4_tail cut_double
    expand_groups group_value v4_key v6_key text_eq join cut_last cut_first hex decimal show_ipv4
tailscale_allowed = refl

evaluate_bind_address_sound_example : IsPermitted interfaces (codes "100.64.0.7")
evaluate_bind_address_sound_example =
    evaluate_bind_address_sound interfaces (codes "100.64.0.7") 4 (codes "100.64.0.7")
      tailscale_allowed

local_parsed : parse_ipv4 (codes "127.0.0.1") ≡ some local
unfolding parse_ipv4 parse_parts split octet value_from
local_parsed = refl

show_ipv4-parse_ipv4_example : IsBytes local × (show_ipv4 local ≡ codes "127.0.0.1")
show_ipv4-parse_ipv4_example = show_ipv4-parse_ipv4 (codes "127.0.0.1") local local_parsed

loopback_parsed : parse_ipv6 (codes "::1") ≡ some (0 ∷ 0 ∷ 0 ∷ 0 ∷ 0 ∷ 0 ∷ 0 ∷ 1 ∷ [])
unfolding parse_ipv6 expand_groups cut_double replace_v4_tail group_value value_from split cut_first
    cut_last
loopback_parsed = refl

parse_ipv6-IsGroups_example : IsGroups (0 ∷ 0 ∷ 0 ∷ 0 ∷ 0 ∷ 0 ∷ 0 ∷ 1 ∷ [])
parse_ipv6-IsGroups_example =
    parse_ipv6-IsGroups (codes "::1") (0 ∷ 0 ∷ 0 ∷ 0 ∷ 0 ∷ 0 ∷ 0 ∷ 1 ∷ []) loopback_parsed

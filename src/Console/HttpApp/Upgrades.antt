-- ===== src/Console/HttpApp/Upgrades.antt =====
-- console/src/http-app.ts, `createUpgradeHandler`: the slots of the terminal adapter over an upgrade.
use agent_runtime_mcp.Base.{
  ℕ, true, false, Option, none, some, Text, length, ◌≡◌, ◌≢◌, ◌⊎◌, refl, Option-cases, inl, inr,
  if-elim,
}
use agent_runtime_mcp.Console.HttpApp.{
  World, Request, App, AuthorityCheck, get_channel, authorized, wrong_host, bad_origin,
  wrong_origin,
}
use agent_runtime_mcp.Console.HttpApp.Router.{safe_path}
use agent_runtime_mcp.Console.HttpApp.Upgrade.{
  Handshake, Upgraded, completes, closes_socket, throws, ends_unheard, upgrade_refused,
  handshake_failed, attach_failed, bridged, terminal_route, has_other_query, query_of, attach_input,
  shake, reserve_and_shake, upgrade_channel, upgrade_terminal, upgrade_given, route_upgrade,
  admit_upgrade, handle_upgrade,
}
use agent_runtime_mcp.Console.McpClient.Calls.{Answer-cases}
use agent_runtime_mcp.Console.TerminalAttach.{Floored, AttachInput, Attach, Target, hold}
use agent_runtime_mcp.Console.TerminalAttach.Settled.{
  IsSame, IsAttached, holds, refuses, lacks, reserve-IsReserved, dispose_reservation-hold-IsSame,
  commit-hold_fails, commit-hold-IsSame, commit-hold_works, commit-hold-IsAttached,
}

-- The adapter, if there is one, has the slots and the processes that it had.
abbrev pub KeepsSlots : App → App → Type 0
KeepsSlots a a' =
    (a'.terminal ≡ a.terminal)
    ⊎ ((t : Attach) × (t' : Attach) × (a.terminal ≡ some t) × (a'.terminal ≡ some t') × IsSame t t')

-- How an upgrade can end.
pub data IsSettled (h : Handshake) (a a' : App) (result : Upgraded) : Type 0 where
  refuses_upgrade :
      (status : ℕ) → result ≡ upgrade_refused status → KeepsSlots a a' → IsSettled h a a' result
  loses_socket :
      h ≢ ends_unheard → result ≡ handshake_failed → KeepsSlots a a' → IsSettled h a a' result
  fails_attach :
      h ≡ completes false → result ≡ attach_failed → KeepsSlots a a' → IsSettled h a a' result
  attaches :
      (t t' : Attach)
      → h ≡ completes true
      → result ≡ bridged (length t.terminals)
      → a.terminal ≡ some t
      → a'.terminal ≡ some t'
      → IsAttached t t'
      → IsSettled h a a' result
  -- The slot of the reservation stays taken.
  leaks :
      (t : Attach) (input : AttachInput) (target : Target)
      → h ≡ ends_unheard
      → a.terminal ≡ some t
      → a'.terminal ≡ some (hold t input target)
      → IsSettled h a a' result

abbrev Ends : Handshake → App → App × Upgraded → Type 0
Ends h a p = IsSettled h a p.0 p.1

module _ (to_number : Text → Floored) where
  shake-IsSettled :
      (h : Handshake) (t : Attach) (input : AttachInput) (target : Target) (a b : App)
      → a.terminal ≡ some t
      → Ends h a (shake to_number h (length t.reservations) (hold t input target) b)
  unfolding shake
  shake-IsSettled (completes false) t input target a b e =
      rw (commit-hold_fails t input target, shake)
        (fails_attach refl refl (inr (t, _, e, refl, commit-hold-IsSame t input target)))
  shake-IsSettled (completes true) t input target a b e =
      rw (commit-hold_works t input target, shake)
        (attaches t _ refl refl e refl (commit-hold-IsAttached t input target))
  shake-IsSettled closes_socket t input target a b e =
      loses_socket (λ same. cc) refl
        (inr (t, _, e, refl, dispose_reservation-hold-IsSame t input target))
  shake-IsSettled throws t input target a b e =
      loses_socket (λ same. cc) refl
        (inr (t, _, e, refl, dispose_reservation-hold-IsSame t input target))
  shake-IsSettled ends_unheard t input target a b e = leaks t input target refl e refl

  reserve_and_shake-IsSettled :
      (h : Handshake) (input : AttachInput) (t : Attach) (a b : App)
      → a.terminal ≡ some t
      → Ends h a (reserve_and_shake to_number h input t b)
  unfolding reserve_and_shake
  reserve_and_shake-IsSettled h input t a b e = elim (reserve-IsReserved t input) [
    | holds target state held ↦
        rw (held, state, reserve_and_shake) (shake-IsSettled h t input target a b e)
    | refuses r denied same ↦
        rw (denied, reserve_and_shake) (refuses_upgrade _ refl (inr (t, _, e, refl, same)))
    | lacks denied same ↦
        rw (denied, reserve_and_shake) (refuses_upgrade _ refl (inr (t, _, e, refl, same)))
  ]

  upgrade_channel-IsSettled :
      (w : World) (r : Request) (h : Handshake) (id : Text) (t : Attach) (a : App)
      → a.terminal ≡ some t
      → Ends h a (upgrade_channel to_number w r h id t a)
  unfolding upgrade_channel
  upgrade_channel-IsSettled w r h id t a e = elim (Answer-cases (w.server (get_channel id))) [
    | inl (payload, found) ↦
        rw (found, upgrade_channel)
          (reserve_and_shake-IsSettled h (attach_input to_number r (query_of w r) payload) t a _ e)
    | inr (f, lost) ↦ rw (lost, upgrade_channel) (refuses_upgrade _ refl (inl refl))
  ]

  upgrade_terminal-IsSettled :
      (w : World) (r : Request) (h : Handshake) (encoded : Text) (t : Attach) (a : App)
      → a.terminal ≡ some t
      → Ends h a (upgrade_terminal to_number w r h encoded t a)
  unfolding upgrade_terminal
  upgrade_terminal-IsSettled w r h encoded t a e =
      elim (Option-cases (w.decode_component encoded)) [
        | inl bad ↦ rw (bad, upgrade_terminal) (refuses_upgrade 400 refl (inl refl))
        | inr (id, decoded) ↦
            rw (decoded, upgrade_terminal)
              (if-elim (Ends h a) (has_other_query (query_of w r)) _ _
                (λ _. refuses_upgrade 400 refl (inl refl))
                (λ _. upgrade_channel-IsSettled w r h id t a e))
      ]

  upgrade_given-IsSettled :
      (w : World) (r : Request) (h : Handshake) (encoded : Text) (o : Option Attach) (a : App)
      → a.terminal ≡ o
      → Ends h a (upgrade_given to_number w r h encoded o a)
  upgrade_given-IsSettled w r h encoded none a e = refuses_upgrade 403 refl (inl refl)
  upgrade_given-IsSettled w r h encoded (some t) a e =
      upgrade_terminal-IsSettled w r h encoded t a e

  route_upgrade-IsSettled :
      (w : World) (r : Request) (h : Handshake) (a : App)
      → Ends h a (route_upgrade to_number w r h a)
  unfolding route_upgrade
  route_upgrade-IsSettled w r h a = elim (Option-cases (terminal_route (safe_path w r))) [
    | inl other ↦ rw (other, route_upgrade) (refuses_upgrade 403 refl (inl refl))
    | inr (encoded, found) ↦
        rw (found, route_upgrade) (upgrade_given-IsSettled w r h encoded a.terminal a refl)
  ]

  admit_upgrade-IsSettled :
      (c : AuthorityCheck) (h : Handshake) (a : App) (routed : App × Upgraded)
      → Ends h a routed
      → Ends h a (admit_upgrade to_number c a routed)
  admit_upgrade-IsSettled authorized h a routed e = e
  admit_upgrade-IsSettled wrong_host h a routed e = refuses_upgrade 403 refl (inl refl)
  admit_upgrade-IsSettled bad_origin h a routed e = refuses_upgrade 403 refl (inl refl)
  admit_upgrade-IsSettled wrong_origin h a routed e = refuses_upgrade 403 refl (inl refl)

  -- An upgrade that is refused, that loses its socket or whose attach fails leaves the slots of the
  -- terminal adapter as they were and starts no process. One that succeeds takes one slot and starts one
  -- process, after a handshake that completed. Only where the socket ends unheard does the slot of the
  -- reservation stay taken.
  pub handle_upgrade-IsSettled :
      (w : World) (r : Request) (h : Handshake) (a : App)
      → IsSettled h a (handle_upgrade to_number w r h a).0 (handle_upgrade to_number w r h a).1
  unfolding handle_upgrade
  handle_upgrade-IsSettled w r h a =
      admit_upgrade-IsSettled _ h a (route_upgrade to_number w r h a)
        (route_upgrade-IsSettled w r h a)

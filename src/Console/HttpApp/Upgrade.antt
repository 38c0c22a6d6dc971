-- ===== src/Console/HttpApp/Upgrade.antt =====
-- console/src/http-app.ts, `createUpgradeHandler`: a request for a terminal, up to its attach. What
-- the WebSocket library makes of the handshake is an argument.
use agent_runtime_mcp.Base.{
  ℕ, pos, negsuc, zero, suc, Bool, not, ◌&&◌, ◌||◌, Option, none, some, List, [], ◌∷◌, Text,
  text_eq, is_empty, codes, any, take, leb, ◌==◌, or_default, is_digit, if◌then◌else◌,
}
use agent_runtime_mcp.Console.HttpApp.{
  World, Request, App, AuthorityCheck, get_channel, upgrade_rejected, log_line, ask, authorized,
  wrong_host, bad_origin, wrong_origin, check_request_authority, map_error, channel_route,
}
use agent_runtime_mcp.Console.HttpApp.Lifecycle.{actor_of}
use agent_runtime_mcp.Console.HttpApp.Router.{safe_path, lookup}
use agent_runtime_mcp.Console.Json.{Json, Members, undefined, string, find_member, record_at}
use agent_runtime_mcp.Console.McpClient.Calls.{answered, failed}
use agent_runtime_mcp.Console.TerminalAttach.{
  Floored, Geometry, Field, TmuxTarget, AttachInput, Attach, Refusal, nan, infinite, minus_infinite,
  whole, absent, other_type, text, attach_cap, ok, refused, unavailable, clamp_geometry, reserve,
  commit, dispose_reservation,
}
use agent_runtime_mcp.Console.Tmux.{includes}

-- The terminal is attached when the handshake completes. It can close the socket or throw instead; a
-- socket that was closed before the handler listens to it ends with neither.
pub data Handshake : Type 0 where
  completes : (spawns : Bool) → Handshake
  closes_socket throws ends_unheard : Handshake

pub data Upgraded : Type 0 where
  upgrade_refused : (status : ℕ) → Upgraded
  handshake_failed attach_failed : Upgraded
  bridged : (terminal : ℕ) → Upgraded

unfoldable pub terminal_route : Text → Option Text
terminal_route path = elim (channel_route path) [
  | none ↦ none
  | some (id, last) ↦ if text_eq last (codes "terminal") then some id else none
]

abbrev pub query_keys : List Text
query_keys = codes "cols" ∷ codes "rows" ∷ []

abbrev pub has_other_query : List (Text × Text) → Bool
has_other_query = any (λ (p : Text × Text). not (includes query_keys p.0))

abbrev pub query_of : World → Request → List (Text × Text)
query_of w r = elim (w.parse_url (or_default r.url (codes "/"))) [
  | none ↦ []
  | some url ↦ url.query
]

-- `Number(text) || fallback`, of which only the floor is used.
abbrev pub or_fallback : Floored → ℕ → Floored
or_fallback nan fallback = whole (pos fallback)
or_fallback infinite fallback = infinite
or_fallback minus_infinite fallback = minus_infinite
or_fallback (whole (pos zero)) fallback = whole (pos fallback)
or_fallback (whole (pos (suc n))) fallback = whole (pos (suc n))
or_fallback (whole (negsuc n)) fallback = whole (negsuc n)

module _ (to_number : Text → Floored) where
  -- A key that is absent gives null, which is the number 0.
  pub query_number : Text → (fallback : ℕ) → List (Text × Text) → Floored
  query_number key fallback query = elim (lookup key query) [
    | none ↦ whole (pos fallback)
    | some value ↦ or_fallback (to_number value) fallback
  ]

  pub geometry_of : List (Text × Text) → Geometry
  geometry_of query =
      clamp_geometry (query_number (codes "cols") 80 query) (query_number (codes "rows") 24 query)

  abbrev pub field_of : Json → Field
  field_of value = elim value [ undefined ↦ absent | string s ↦ text s | _ ↦ other_type ]

  -- `payload?.channel?.backend_metadata?.tmux`
  pub target_of : Members → TmuxTarget
  target_of payload =
      let tmux =
        record_at (codes "tmux")
          (record_at (codes "backend_metadata") (record_at (codes "channel") payload)) in
      record {
        session_name = field_of (find_member (codes "session_name") tmux);
        window_id = field_of (find_member (codes "window_id") tmux);
        pane_id = field_of (find_member (codes "pane_id") tmux);
      }

  pub attach_input : Request → List (Text × Text) → Members → AttachInput
  attach_input r query payload =
      let g = geometry_of query in
      record {
        tmux = target_of payload;
        cols = whole (pos g.cols);
        rows = whole (pos g.rows);
        actor = actor_of r;
      }

  abbrev pub refuse : ℕ → App → App × Upgraded
  refuse status a = (log_line upgrade_rejected a, upgrade_refused status)

  abbrev pub with_terminal : Attach → App → App
  with_terminal t a = record a { terminal = some t }

  -- `wss.handleUpgrade(…)` and its callback, for the reservation with the number `i`.
  unfoldable pub shake : Handshake → ℕ → Attach → App → App × Upgraded
  shake (completes spawns) i t a =
      let (t', attached) = commit spawns i t in
      elim attached [
        | ok terminal ↦ (with_terminal t' a, bridged terminal)
        | _ ↦ (log_line upgrade_rejected (with_terminal t' a), attach_failed)
      ]
  shake closes_socket i t a = (with_terminal (dispose_reservation i t) a, handshake_failed)
  shake throws i t a = (with_terminal (dispose_reservation i t) a, handshake_failed)
  shake ends_unheard i t a = (with_terminal t a, handshake_failed)

  abbrev pub refusal_status : Refusal → ℕ
  refusal_status reason = elim reason [ attach_cap ↦ 429 | _ ↦ 403 ]

  unfoldable pub reserve_and_shake : Handshake → AttachInput → Attach → App → App × Upgraded
  reserve_and_shake h input t a =
      let (t', held) = reserve t input in
      elim held [
        | ok i ↦ shake h i t' a
        | refused reason ↦ refuse (refusal_status reason) (with_terminal t' a)
        | unavailable ↦ refuse 500 (with_terminal t' a)
      ]

  unfoldable pub upgrade_channel :
      World → Request → Handshake → (channel_id : Text) → Attach → App → App × Upgraded
  upgrade_channel w r h id t a = elim (w.server (get_channel id)) [
    | failed e ↦ refuse (map_error e).status (ask (get_channel id) a)
    | answered payload ↦
        reserve_and_shake h (attach_input r (query_of w r) payload) t (ask (get_channel id) a)
  ]

  unfoldable pub upgrade_terminal :
      World → Request → Handshake → (encoded : Text) → Attach → App → App × Upgraded
  upgrade_terminal w r h encoded t a = elim (w.decode_component encoded) [
    | none ↦ refuse 400 a
    | some id ↦
        if has_other_query (query_of w r) then refuse 400 a else upgrade_channel w r h id t a
  ]

  abbrev pub upgrade_given :
      World → Request → Handshake → (encoded : Text) → Option Attach → App → App × Upgraded
  upgrade_given w r h encoded none a = refuse 403 a
  upgrade_given w r h encoded (some t) a = upgrade_terminal w r h encoded t a

  unfoldable pub route_upgrade : World → Request → Handshake → App → App × Upgraded
  route_upgrade w r h a = elim (terminal_route (safe_path w r)) [
    | none ↦ refuse 403 a
    | some encoded ↦ upgrade_given w r h encoded a.terminal a
  ]

  abbrev pub admit_upgrade : AuthorityCheck → App → App × Upgraded → App × Upgraded
  admit_upgrade authorized a routed = routed
  admit_upgrade wrong_host a routed = refuse 403 a
  admit_upgrade bad_origin a routed = refuse 403 a
  admit_upgrade wrong_origin a routed = refuse 403 a

  unfoldable pub handle_upgrade : World → Request → Handshake → App → App × Upgraded
  handle_upgrade w r h a =
      admit_upgrade (check_request_authority w r a.expected_host) a (route_upgrade w r h a)

-- `[\w -]`
abbrev pub is_plain : ℕ → Bool
is_plain c =
    is_digit c
    || (leb b'A' c && leb c b'Z')
    || (leb b'a' c && leb c b'z')
    || (c == b'_' || (c == b' ' || c == b'-'))

-- A character beyond the basic plane is two units, which are both replaced.
pub replace_odd : Text → Text
replace_odd [] = []
replace_odd (c ∷ s) =
    let rest = replace_odd s in
    if is_plain c then c ∷ rest else if leb 0x10000 c then b'_' ∷ b'_' ∷ rest else b'_' ∷ rest

pub end_reason : Text → Text
end_reason s =
    let short = take 64 (replace_odd s) in if is_empty short then codes "error" else short

-- ===== src/Console/HttpApp/Router.antt =====
-- console/src/http-app.ts, `createRequestHandler`: which handler a request reaches.
use agent_runtime_mcp.Base.{
  ℕ, Bool, true, false, ◌||◌, Option, none, some, List, [], ◌∷◌, ◌++◌, Text, text_eq, is_empty,
  codes, length, drop, set, get_elem?, starts_with, has_char, or_default, if◌then◌else◌,
}
use agent_runtime_mcp.Console.HistoryHub.Manager.{
  channel_snapshot, raw_transcript, add_viewer, remove_viewer,
}
use agent_runtime_mcp.Console.HttpApp.{
  McpCall, World, Request, Reply, ReplyBody, Handled, App, AuthorityCheck, health, list_channels,
  get_channel, payload, raw_body, profiles_body, terminal_body, snapshot_body, event_stream,
  file_body, send_error, invalid, not_found, replied, raised, http_request, sse_open, log_line, ask,
  authorized, wrong_host, bad_origin, wrong_origin, check_request_authority, map_error,
  channel_route,
}
use agent_runtime_mcp.Console.HttpApp.Lifecycle.{LifecycleAction, sessions, kills, handle_lifecycle}
use agent_runtime_mcp.Console.HttpApp.Mutations.{Kind, text_kind, control_kind, handle_mutation}
use agent_runtime_mcp.Console.McpClient.Calls.{Answer, answered, failed, tool_error}
use agent_runtime_mcp.Console.SessionLifecycle.{profile_labels}
use agent_runtime_mcp.Console.Tmux.{includes}

abbrev pub static_files : List Text
static_files =
    codes "/index.html"
    ∷ codes "/app.js"
    ∷ codes "/transfer.js"
    ∷ codes "/style.css"
    ∷ codes "/markdown.js"
    ∷ codes "/viewport.js"
    ∷ codes "/reading.js"
    ∷ codes "/terminal.html"
    ∷ codes "/terminal.js"
    ∷ codes "/vendor/xterm.js"
    ∷ codes "/vendor/xterm.css"
    ∷ codes "/vendor/addon-fit.js"
    ∷ codes "/modules/projection.js"
    ∷ codes "/modules/adapter.js"
    ∷ codes "/modules/devin-adapter.js"
    ∷ codes "/modules/build-stamp.js"
    ∷ []

-- A missing url is read as `/`, and so is one that does not parse.
pub safe_path : World → Request → Text
safe_path w r = elim (w.parse_url (or_default r.url (codes "/"))) [
  | none ↦ codes "/"
  | some url ↦ url.pathname
]

unfoldable pub mutation_route : Text → Option (Text × Kind)
mutation_route path = elim (channel_route path) [
  | none ↦ none
  | some (id, last) ↦
      if text_eq last (codes "text")
      then some (id, text_kind)
      else if text_eq last (codes "control")
      then some (id, control_kind)
      else none
]

pub data HistoryKind : Type 0 where
  history_kind events_kind : HistoryKind

unfoldable pub history_route : Text → Option (Text × HistoryKind)
history_route path = elim (channel_route path) [
  | none ↦ none
  | some (id, last) ↦
      if text_eq last (codes "history")
      then some (id, history_kind)
      else if text_eq last (codes "events")
      then some (id, events_kind)
      else none
]

pub lifecycle_route : Text → Option LifecycleAction
lifecycle_route path =
    if text_eq path (codes "/api/lifecycle/sessions")
    then some sessions
    else if text_eq path (codes "/api/lifecycle/kill")
    then some kills
    else none

abbrev pub lookup : Text → List (Text × Text) → Option Text
lookup key [] = none
lookup key ((k, v) ∷ query) = if text_eq k key then some v else lookup key query

-- `searchParams.get('format') === 'raw'`
abbrev pub wants_raw : World → Request → Bool
wants_raw w r = elim (w.parse_url (or_default r.url (codes "/"))) [
  | none ↦ false
  | some url ↦ elim (lookup (codes "format") url.query) [
    | none ↦ false
    | some format ↦ text_eq format (codes "raw")
  ]
]

abbrev pub ok_reply : ReplyBody → Handled
ok_reply body = replied (record { status = 200; body = body })

abbrev pub of_answer : {A : Type 0} → (A → ReplyBody) → Answer A → Handled
of_answer body (answered value) = ok_reply (body value)
of_answer body (failed e) = raised e

unfoldable pub handle_history : World → Request → (channel_id : Text) → App → App × Handled
handle_history w r id a =
    let (raw_hub, transcript) = raw_transcript id a.hub in
    let (hub, taken) = channel_snapshot id a.hub in
    if wants_raw w r
    then (record a { hub = raw_hub }, of_answer raw_body transcript)
    else (record a { hub = hub }, of_answer snapshot_body taken)

-- The listener is the number of the stream.
unfoldable pub handle_events : World → (channel_id : Text) → App → App × Handled
handle_events w id a =
    let (hub, added) = add_viewer w.now id (length a.streams) a.hub in
    if added
    then (
      log_line (sse_open id) (record a {
        hub = hub;
        streams = a.streams ++ record { channel_id = id; is_open = true } ∷ [];
      }),
      ok_reply event_stream,
    )
    else (record a { hub = hub }, raised (tool_error (codes "RESOURCE_EXHAUSTED")))

-- The client of a stream leaves: `res.on('close', …)`.
pub close_stream : World → ℕ → App → App
close_stream w i a = elim (get_elem? a.streams i) [
  | none ↦ a
  | some s ↦
      if s.is_open
      then record a {
        hub = remove_viewer w.now s.channel_id i a.hub;
        streams = set a.streams i (record s { is_open = false });
      }
      else a
]

unfoldable pub ask_server : World → McpCall → App → App × Handled
ask_server w c a = (ask c a, of_answer payload (w.server c))

abbrev pub channels_prefix : Text
channels_prefix = codes "/api/channels/"

abbrev pub get_one : World → (path : Text) → App → App × Handled
get_one w path a = elim (w.decode_component (drop (length channels_prefix) path)) [
  | none ↦ (a, replied (invalid 400))
  | some id ↦
      if is_empty id || has_char b'/' id
      then (a, replied not_found)
      else ask_server w (get_channel id) a
]

abbrev pub serve_static : World → (name : Text) → App → App × Handled
serve_static w name a = elim (w.file_size name) [
  | none ↦ (a, replied not_found)
  | some size ↦ (a, ok_reply (file_body name size))
]

abbrev pub static_name : Text → Text
static_name path = if text_eq path (codes "/") then codes "/index.html" else path

-- What follows the routes of the history.
unfoldable pub route_rest : World → (path : Text) → App → App × Handled
route_rest w path a =
    if starts_with path channels_prefix
    then get_one w path a
    else if includes static_files (static_name path)
    then serve_static w (static_name path) a
    else (a, replied not_found)

abbrev pub history_handler : World → Request → Text → HistoryKind → App → App × Handled
history_handler w r encoded kind a = elim (w.decode_component encoded) [
  | none ↦ (a, replied (invalid 400))
  | some id ↦ elim kind [
    | history_kind ↦ handle_history w r id a
    | events_kind ↦ handle_events w id a
  ]
]

abbrev pub info_lifecycle : App → App × Handled
info_lifecycle a = elim a.lifecycle [
  | none ↦ (a, replied not_found)
  | some s ↦ (a, ok_reply (profiles_body (profile_labels s)))
]

abbrev pub info_terminal : App → App × Handled
info_terminal a = elim a.terminal [
  | none ↦ (a, replied not_found)
  | some t ↦ (a, ok_reply (terminal_body t.max_attach))
]

unfoldable pub route_get : World → Request → (path : Text) → App → App × Handled
route_get w r path a =
    if text_eq path (codes "/api/health")
    then ask_server w health a
    else if text_eq path (codes "/api/channels")
    then ask_server w list_channels a
    else if text_eq path (codes "/api/lifecycle")
    then info_lifecycle a
    else if text_eq path (codes "/api/terminal")
    then info_terminal a
    else elim (history_route path) [
      | some (encoded, kind) ↦ history_handler w r encoded kind a
      | none ↦ route_rest w path a
    ]

abbrev pub is_read_method : Text → Bool
is_read_method method = text_eq method (codes "GET") || text_eq method (codes "HEAD")

abbrev pub is_post : Text → Bool
is_post method = text_eq method (codes "POST")

abbrev pub mutation_handler : World → Request → Text → Kind → App → App × Handled
mutation_handler w r encoded kind a = elim (w.decode_component encoded) [
  | none ↦ (a, replied (invalid 400))
  | some id ↦ handle_mutation w r kind id a
]

unfoldable pub route_post : World → Request → (path : Text) → App → App × Handled
route_post w r path a = elim (mutation_route path) [
  | some (encoded, kind) ↦ mutation_handler w r encoded kind a
  | none ↦ elim (lifecycle_route path) [
    | some action ↦ handle_lifecycle w r action a
    | none ↦ (a, replied (send_error 405 (codes "METHOD_NOT_ALLOWED")))
  ]
]

unfoldable pub route : World → Request → (path : Text) → App → App × Handled
route w r path a =
    if is_post r.method
    then route_post w r path a
    else if is_read_method r.method
    then route_get w r path a
    else (a, replied (send_error 405 (codes "METHOD_NOT_ALLOWED")))

-- `if (!authority.ok) { … return; }`
abbrev pub admit : AuthorityCheck → App → App × Handled → App × Handled
admit authorized a routed = routed
admit wrong_host a routed = (a, replied (send_error 403 (codes "FORBIDDEN")))
admit bad_origin a routed = (a, replied (send_error 403 (codes "FORBIDDEN")))
admit wrong_origin a routed = (a, replied (send_error 403 (codes "FORBIDDEN")))

unfoldable pub guarded : World → Request → (path : Text) → App → App × Handled
guarded w r path a = admit (check_request_authority w r a.expected_host) a (route w r path a)

abbrev pub reply_of : Handled → Reply
reply_of (replied reply) = reply
reply_of (raised e) = map_error e

-- The request handler: whatever comes of the request is answered and logged.
unfoldable pub handle_request : World → Request → App → App × Reply
handle_request w r a =
    let path = safe_path w r in
    let (a', handled) = guarded w r path a in
    let reply = reply_of handled in (log_line (http_request r.method path reply.status) a', reply)

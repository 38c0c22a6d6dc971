-- ===== src/Console/HttpApp.antt =====
-- console/src/http-app.ts: the types of the HTTP surface, the check of the authority, the body of a
-- request and the status of an error. What Node, the URL and JSON parsers and the server answer is a
-- field of `World`; messages and headers of a reply are left out.
pub mod Mutations
pub mod Lifecycle
pub mod Router
pub mod Authority
pub mod ServerErrors
pub mod Upgrades
pub mod Guarded
pub mod Asked
pub mod Reported
pub mod Body
pub mod Routes
pub mod Upgrade
pub mod Bridge
pub mod Bridged
use agent_runtime_mcp.Base.{
  ℕ, ◌+◌, ◌*◌, Bool, true, false, not, ◌&&◌, ◌||◌, Option, none, some, List, [], ◌∷◌, ◌++◌, Text,
  text_eq, is_empty, codes, length, ltb, split, if◌then◌else◌,
}
use agent_runtime_mcp.Console.Events.{Bus, ConsoleEvent, emit}
use agent_runtime_mcp.Console.HistoryHub.Manager.{Hub, ChannelSnapshot, call, hears}
use agent_runtime_mcp.Console.Json.{Json, Members}
use agent_runtime_mcp.Console.McpClient.Calls.{
  McpError, unavailable, tool_error, other_error, Answer, answered, failed,
}
use agent_runtime_mcp.Console.SessionLifecycle.{Settings, Trace}
use agent_runtime_mcp.Console.TerminalAttach.{Attach}
use agent_runtime_mcp.Console.Tmux.{includes}

-- The requests of the handlers to the server.
pub data McpCall : Type 0 where
  health list_channels : McpCall
  get_channel : Text → McpCall
  write_text : (channel_id text : Text) (submit : Bool) → McpCall
  send_control : (channel_id control : Text) → McpCall

-- `new URL(raw, 'http://console.internal')`: its path and its query.
pub record Url : Type 0 where
  pub pathname : Text
  pub query : List (Text × Text)

pub record World : Type 0 where
  pub parse_json : List ℕ → Option Json
  pub parse_url : Text → Option Url
  pub origin_host : Text → Option Text
  pub lower_case : Text → Text
  pub decode_component : Text → Option Text
  pub resolve : Text → Text
  pub realpath : Text → Option Text
  pub file_size : Text → Option ℕ
  pub server : McpCall → Answer Members
  pub runs : Bool
  pub now : Text

pub record Request : Type 0 where
  pub method : Text
  pub url : Option Text
  pub host : Option Text
  pub origin : Option Text
  pub remote_address : Option Text
  pub chunks : List (List ℕ)

pub data ReplyBody : Type 0 where
  error_body : (code : Text) → ReplyBody
  delivered_body payload : Members → ReplyBody
  created killed raw_body : Text → ReplyBody
  profiles_body : List Text → ReplyBody
  terminal_body : (max_attach : ℕ) → ReplyBody
  snapshot_body : ChannelSnapshot → ReplyBody
  event_stream : ReplyBody
  file_body : (name : Text) (size : ℕ) → ReplyBody

pub record Reply : Type 0 where
  pub status : ℕ
  pub body : ReplyBody

abbrev pub send_error : ℕ → Text → Reply
send_error status code = record { status = status; body = error_body code }

abbrev pub invalid : ℕ → Reply
invalid status = send_error status (codes "INVALID_ARGUMENT")

abbrev pub not_found : Reply
not_found = send_error 404 (codes "NOT_FOUND")

-- What a handler gives: a reply, or an error that the request handler maps.
pub data Handled : Type 0 where
  replied : Reply → Handled
  raised : McpError → Handled

pub data MutationResult : Type 0 where
  was_delivered was_ambiguous was_rejected : MutationResult

pub data LogLine : Type 0 where
  mutation : (channel_id : Text) → MutationResult → LogLine
  http_request : (method path : Text) (status : ℕ) → LogLine
  sse_open : (channel_id : Text) → LogLine
  upgrade_rejected : LogLine

-- An event stream that was opened, and whether it still is.
pub record Stream : Type 0 where
  pub channel_id : Text
  pub is_open : Bool

pub record App : Type 0 where
  pub expected_host : Text
  pub lifecycle : Option Settings
  pub trace : Trace
  pub terminal : Option Attach
  pub bus : Bus
  pub hub : Hub
  pub streams : List Stream
  pub calls : List McpCall
  pub log : List LogLine

abbrev pub log_line : LogLine → App → App
log_line line a = record a { log = a.log ++ line ∷ [] }

abbrev pub ask : McpCall → App → App
ask c a = record a { calls = a.calls ++ c ∷ [] }

-- `deps.events.emit(event)`: the history hub is one of the listeners.
pub tell : (now : Text) → ConsoleEvent → App → App
tell now event a = record a { bus = emit event a.bus; hub = call now (hears event) a.hub }

pub data AuthorityCheck : Type 0 where
  authorized wrong_host bad_origin wrong_origin : AuthorityCheck

abbrev pub check_origin : World → Text → Text → AuthorityCheck
check_origin w expected origin = elim (w.origin_host origin) [
  | none ↦ bad_origin
  | some host ↦
      if text_eq (w.lower_case host) (w.lower_case expected) then authorized else wrong_origin
]

abbrev pub check_given_origin : World → Text → Option Text → AuthorityCheck
check_given_origin w expected none = authorized
check_given_origin w expected (some []) = authorized
check_given_origin w expected (some (c ∷ origin)) = check_origin w expected (c ∷ origin)

pub check_request_authority : World → Request → (expected : Text) → AuthorityCheck
check_request_authority w r expected = elim r.host [
  | none ↦ wrong_host
  | some host ↦
      if text_eq (w.lower_case host) (w.lower_case expected)
      then check_given_origin w expected r.origin
      else wrong_host
]

abbrev pub not_found_codes : List Text
not_found_codes = codes "CHANNEL_NOT_FOUND" ∷ []

abbrev pub unavailable_codes : List Text
unavailable_codes = codes "CHANNEL_UNAVAILABLE" ∷ codes "BACKEND_UNAVAILABLE" ∷ []

abbrev pub invalid_codes : List Text
invalid_codes =
    codes "INVALID_ARGUMENT"
    ∷ codes "WAIT_ARGUMENT_INVALID"
    ∷ codes "CURSOR_INVALID"
    ∷ codes "CURSOR_EXPIRED"
    ∷ codes "OBSERVATION_GAP"
    ∷ codes "CHANNEL_INSTANCE_CHANGED"
    ∷ []

abbrev pub limit_codes : List Text
limit_codes = codes "WAITER_LIMIT" ∷ codes "RESOURCE_EXHAUSTED" ∷ []

pub status_of_code : Text → ℕ
status_of_code code =
    if includes not_found_codes code
    then 404
    else if includes unavailable_codes code
    then 503
    else if includes invalid_codes code
    then 400
    else if text_eq code (codes "TIMEOUT")
    then 504
    else if includes limit_codes code
    then 429
    else 502

pub map_error : McpError → Reply
map_error unavailable = send_error 503 (codes "MCP_UNAVAILABLE")
map_error (tool_error code) = send_error (status_of_code code) code
map_error other_error = send_error 500 (codes "INTERNAL")

abbrev pub max_body_bytes : ℕ
max_body_bytes = 2 * 1024 * 1024

-- The loop over the chunks: what is kept, the size so far, and whether it was too large.
pub record Reading : Type 0 where
  pub size : ℕ
  pub too_large : Bool
  pub kept : List ℕ

abbrev pub take_chunk : List ℕ → Reading → Reading
take_chunk chunk r =
    let size = r.size + length chunk in
    if ltb max_body_bytes size
    then record r { size = size; too_large = true }
    else if r.too_large
    then record r { size = size }
    else record r { size = size; kept = r.kept ++ chunk }

pub read_chunks : List (List ℕ) → Reading → Reading
read_chunks [] r = r
read_chunks (chunk ∷ chunks) r = read_chunks chunks (take_chunk chunk r)

abbrev pub start_reading : Reading
start_reading = record { size = 0; too_large = false; kept = [] }

pub data BodyRead : Type 0 where
  parsed : Json → BodyRead
  body_refused : (status : ℕ) → BodyRead

abbrev pub parse_body : (List ℕ → Option Json) → List ℕ → BodyRead
parse_body parse bytes = elim (parse bytes) [ none ↦ body_refused 400 | some value ↦ parsed value ]

pub read_json_body : (List ℕ → Option Json) → List (List ℕ) → BodyRead
read_json_body parse chunks =
    let r = read_chunks chunks start_reading in
    if r.too_large then body_refused 413 else parse_body parse r.kept

-- An id that is not empty, in the segments of `/api/channels/<id>/<last>`.
abbrev pub channel_segments : List Text → Option (Text × Text)
channel_segments segments = elim segments [
  | [] ∷ api ∷ channels ∷ (c ∷ id) ∷ last ∷ [] ↦
      if text_eq api (codes "api") && text_eq channels (codes "channels")
      then some (c ∷ id, last)
      else none
  | _ ↦ none
]

-- What the three patterns of such routes have in common.
pub channel_route : Text → Option (Text × Text)
channel_route path = channel_segments (split b'/' path)

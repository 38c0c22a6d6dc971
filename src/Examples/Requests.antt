-- ===== src/Examples/Requests.antt =====
-- Witnesses for console/src/http-app.ts.
use agent_runtime_mcp.Base.{
  ℕ, ◌≤◌, true, false, Option, none, some, List, [], ◌∷◌, ◌++◌, Text, codes, length, ltb, ◌≡◌, ◌↔◌,
  refl, if◌then◌else◌,
}
use agent_runtime_mcp.Console.Events.{new_bus, subscribe}
use agent_runtime_mcp.Console.History.Ring.{RingOptions}
use agent_runtime_mcp.Console.HistoryHub.{
  ChannelState, default_options, new_channel, handle_loop_error,
}
use agent_runtime_mcp.Console.HistoryHub.Manager.{new_hub}
use agent_runtime_mcp.Console.HttpApp.{
  World, Request, App, max_body_bytes, body_refused, parse_body, read_chunks, start_reading,
  read_json_body, map_error, send_error,
}
use agent_runtime_mcp.Console.HttpApp.Body.{concat, read_json_body_eq}
use agent_runtime_mcp.Console.HttpApp.Bridge.{BridgeEvent, message, closes, exits, run}
use agent_runtime_mcp.Console.HttpApp.Bridged.{IsBridgeLog, run-IsBridgeLog}
use agent_runtime_mcp.Console.HttpApp.Guarded.{IsGuarded, handle_request-IsGuarded}
use agent_runtime_mcp.Console.HttpApp.Mutations.{text_kind, handle_mutation}
use agent_runtime_mcp.Console.HttpApp.Reported.{IsReported, handle_mutation-IsReported}
use agent_runtime_mcp.Console.HttpApp.Router.{
  events_kind, mutation_route, history_route, handle_request,
}
use agent_runtime_mcp.Console.HttpApp.Routes.{IsChannelPath, channel_routes_iff}
use agent_runtime_mcp.Console.HttpApp.ServerErrors.{
  expected_status, expected_state, failed_outcome, failed_outcome_expected,
}
use agent_runtime_mcp.Console.HttpApp.Upgrade.{terminal_route, completes, handle_upgrade}
use agent_runtime_mcp.Console.HttpApp.Upgrades.{IsSettled, handle_upgrade-IsSettled}
use agent_runtime_mcp.Console.Json.{Json, nil, member, string, object}
use agent_runtime_mcp.Console.McpClient.Calls.{answered, failed, tool_error}
use agent_runtime_mcp.Console.TerminalAttach.{Floored, PtyCall, Attach, nan, new_attach}
use agent_runtime_mcp.Console.TerminalAttach.Live.{IsAt}
use agent_runtime_mcp.Console.Tmux.{TmuxEnv}
use agent_runtime_mcp.Runtime.Errors.{channel_error, plain, timeout, to_structured_error}
use agent_runtime_mcp.Runtime.Tools.{structured_name}

abbrev hello : Json
hello = object (member (codes "text") (string (codes "hello")) nil)

-- Every body is the text `hello`, every origin is its own host, and every address is the route of the
-- text of channel `a`.
abbrev world : World
world = record {
  parse_json = λ bytes. some hello;
  parse_url = λ raw. some (record { pathname = raw; query = [] });
  origin_host = λ origin. some origin;
  lower_case = λ s. s;
  decode_component = λ s. some s;
  resolve = λ s. s;
  realpath = λ s. some s;
  file_size = λ name. none;
  server = λ c. answered nil;
  runs = true;
  now = codes "t1";
}

abbrev post_text : Request
post_text = record {
  method = codes "POST";
  url = some (codes "/api/channels/a/text");
  host = some (codes "127.0.0.1:8080");
  origin = none;
  remote_address = none;
  chunks = (1 ∷ 2 ∷ []) ∷ (3 ∷ []) ∷ [];
}

abbrev get_terminal : Request
get_terminal = record post_text {
  method = codes "GET";
  url = some (codes "/api/channels/a/terminal");
}

abbrev default_env : TmuxEnv
default_env = record { allowed_sessions = none; socket_path = none; socket_name = none }

abbrev rings : RingOptions
rings = record { max_lines = none; max_bytes = none }

abbrev app : App
app = record {
  expected_host = codes "127.0.0.1:8080";
  lifecycle = none;
  trace = record { runs = []; audits = [] };
  terminal = some (new_attach true 2 default_env);
  bus = (subscribe 7 new_bus).0;
  hub = new_hub default_options rings 4 16;
  streams = [];
  calls = [];
  log = [];
}

read_json_body_eq_example :
    (read_json_body world.parse_json post_text.chunks ≡ (
      if ltb max_body_bytes (length (concat post_text.chunks))
      then body_refused 413
      else parse_body world.parse_json (concat post_text.chunks)))
    × (length (read_chunks post_text.chunks start_reading).kept ≤ max_body_bytes)
read_json_body_eq_example = read_json_body_eq world.parse_json post_text.chunks

handle_mutation-IsReported_example :
    IsReported world post_text text_kind
      (codes "a")
      app
      (handle_mutation world post_text text_kind (codes "a") app).0
      (handle_mutation world post_text text_kind (codes "a") app).1
handle_mutation-IsReported_example =
    handle_mutation-IsReported world post_text text_kind (codes "a") app

handle_request-IsGuarded_example :
    IsGuarded world post_text app
      (handle_request world post_text app).0
      (handle_request world post_text app).1
handle_request-IsGuarded_example = handle_request-IsGuarded world post_text app

abbrev no_number : Text → Floored
no_number s = nan

abbrev tmux_payload : Json
tmux_payload = object (member (codes "session_name") (string (codes "dev")) nil)

-- The server knows the session of the channel.
abbrev terminal_world : World
terminal_world = record world {
  server = λ c. answered (
      member (codes "channel")
        (object
          (member (codes "backend_metadata") (object (member (codes "tmux") tmux_payload nil)) nil))
        nil);
}

handle_upgrade-IsSettled_example :
    IsSettled
      (completes true)
      app
      (handle_upgrade no_number terminal_world get_terminal (completes true) app).0
      (handle_upgrade no_number terminal_world get_terminal (completes true) app).1
handle_upgrade-IsSettled_example =
    handle_upgrade-IsSettled no_number terminal_world get_terminal (completes true) app

abbrev live : Attach
live = record (new_attach true 2 default_env) {
  active = 1;
  terminals = record { session = codes "dev"; disposed = false } ∷ [];
}

live-IsAt : IsAt 0 false live
live-IsAt = record {
  terminal = record { session = codes "dev"; disposed = false };
  found = refl;
  disposed_eq = refl;
}

abbrev typed : List ℕ → Option Json
typed raw = some (
    object
      (member (codes "type") (string (codes "input")) (member (codes "data") (string raw) nil)))

abbrev two_keys : List BridgeEvent
two_keys = message (codes "l") ∷ message (codes "s") ∷ closes ∷ exits ∷ message (codes "x") ∷ []

run-IsBridgeLog_example :
    (added : List PtyCall) × ((run typed 0 two_keys live).calls ≡ live.calls ++ added)
    × IsBridgeLog 0 added
run-IsBridgeLog_example = run-IsBridgeLog typed 0 two_keys live live-IsAt

channel_routes_iff_example :
    ((mutation_route (codes "/api/channels/a/text") ≡ some (codes "a", text_kind))
      ↔ IsChannelPath (codes "/api/channels/a/text") (codes "a") (codes "text"))
    × ((history_route (codes "/api/channels/a/text") ≡ some (codes "a", events_kind))
        ↔ IsChannelPath (codes "/api/channels/a/text") (codes "a") (codes "events"))
    × ((terminal_route (codes "/api/channels/a/text") ≡ some (codes "a"))
        ↔ IsChannelPath (codes "/api/channels/a/text") (codes "a") (codes "terminal"))
channel_routes_iff_example =
    channel_routes_iff (codes "/api/channels/a/text") (codes "a") text_kind events_kind

abbrev watched_channel : ChannelState
watched_channel = record {
  channel_id = codes "a";
  ring = (new_channel rings (codes "a")).ring;
  state = (new_channel rings (codes "a")).state;
  detail = none;
  cursor = none;
  last_read = [];
  attached_once = false;
  current_block_id = none;
  last_broadcast_dropped = 0;
  viewers = 7 ∷ [];
  loop = (new_channel rings (codes "a")).loop;
  stopped = false;
  poll_timer = (new_channel rings (codes "a")).poll_timer;
  strays = 0;
  ticks = 0;
  sent = [];
  requests = [];
}

failed_outcome_expected_example :
    let code = (to_structured_error (channel_error (plain timeout))).code in
    (failed_outcome true true (channel_error (plain timeout))
      ≡ failed (tool_error (structured_name code)))
    × (map_error (tool_error (structured_name code))
        ≡ send_error (expected_status code) (structured_name code))
    × (400 ≤ expected_status code)
    × ((handle_loop_error (tool_error (structured_name code)) watched_channel).state
        ≡ expected_state code)
failed_outcome_expected_example =
    failed_outcome_expected true true (channel_error (plain timeout)) watched_channel refl refl

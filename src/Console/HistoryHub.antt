-- ===== src/Console/HistoryHub.antt =====
-- console/src/observer.ts: the state of one observed channel and what changes it. A listener is known
-- by its number. The updates that are sent to listeners and the requests to the server are kept in the
-- order in which they are made. `lastAccess`, which nothing reads, and the log are left out.
pub mod Blocks
pub mod Loop
pub mod Manager
pub mod OnlyCurrent
pub mod OpenBlock
pub mod Quiet
pub mod Turns
pub mod Watched
pub mod Capacity
pub mod Keeps
pub mod Requests
pub mod Lifted
pub mod Begun
pub mod Order
use agent_runtime_mcp.Base.{
  ℕ, ℤ, zero, suc, ◌+◌, ◌*◌, Bool, true, false, not, ◌&&◌, ◌||◌, Option, none, some, List, [], ◌∷◌,
  ◌++◌, map, Text, text_eq, is_empty, codes, ltb, ◌==◌, filter, or_default, if◌then◌else◌,
}
use agent_runtime_mcp.Console.Events.{ConsoleEvent, add_listener}
use agent_runtime_mcp.Console.Events
use agent_runtime_mcp.Console.History.DiffTail.{diff_tail}
use agent_runtime_mcp.Console.History.Entry.{
  BlockState, OutputBlock, Body, earlier_output, output_block, user_turn, control, drop_marker,
  HistoryEntry, NewHistoryEntry,
}
use agent_runtime_mcp.Console.History.Ring.{
  Ring, RingOptions, RingSnapshot, new_ring, push, get, update, snapshot,
}
use agent_runtime_mcp.Console.Json.{Members, find_member, is_true, record_at, string_at}
use agent_runtime_mcp.Console.McpClient.Calls.{McpError, unavailable, tool_error, other_error}
use agent_runtime_mcp.Console.Tmux.{includes}

pub data ObservationState : Type 0 where
  idle attaching live polling needs_reobserve closed error : ObservationState

pub data HubUpdate : Type 0 where
  snapshot_update :
      (channel_id : Text) (state : ObservationState) (detail : Option Text)
      → RingSnapshot
      → HubUpdate
  delta :
      (channel_id : Text) (state : ObservationState) (detail : Option Text)
      (appended updated : List HistoryEntry) (dropped_entries dropped_lines : ℕ)
      → Option RingSnapshot
      → HubUpdate

pub record Options : Type 0 where
  pub idle_ms : ℕ
  pub timeout_ms : ℕ
  pub busy_timeout_ms : ℕ
  pub tail_lines : ℕ
  pub tail_bytes : ℕ

abbrev pub default_options : Options
default_options = record {
  idle_ms = 1000;
  timeout_ms = 15000;
  busy_timeout_ms = 600;
  tail_lines = 400;
  tail_bytes = 256 * 1024;
}

pub data PullMode : Type 0 where
  earlier output : PullMode

-- Where the observation loop of a channel waits for an answer: nowhere, for `getChannel`, for the
-- first read, for an event, or for the read that an event asks for.
pub data LoopPoint : Type 0 where
  inactive awaits_channel awaits_event : LoopPoint
  awaits_initial : PullMode → LoopPoint
  awaits_read : (pauses saw_activity : Bool) → LoopPoint

-- `cs.pollTimer`: null, a timer that is set, or one that has fired.
pub data PollTimer : Type 0 where
  no_timer scheduled fired : PollTimer

pub data Request : Type 0 where
  observe : Request
  read : (lines bytes : ℕ) → Request
  wait : (after_cursor : Option Text) (idle_ms timeout_ms : ℕ) → Request

-- `strays` counts the scheduled timers that `cs.pollTimer` no longer names, and `ticks` the reads of
-- timers that have fired which are not answered yet.
pub record ChannelState : Type 0 where
  pub channel_id : Text
  pub ring : Ring
  pub state : ObservationState
  pub detail : Option Text
  pub cursor : Option Text
  pub last_read : Text
  pub attached_once : Bool
  pub current_block_id : Option ℤ
  pub last_broadcast_dropped : ℕ
  pub viewers : List ℕ
  pub loop : LoopPoint
  pub stopped : Bool
  pub poll_timer : PollTimer
  pub strays : ℕ
  pub ticks : ℕ
  pub sent : List (ℕ × HubUpdate)
  pub requests : List Request

pub new_channel : RingOptions → Text → ChannelState
new_channel options channel_id = record {
  channel_id = channel_id;
  ring = new_ring options;
  state = idle;
  detail = none;
  cursor = none;
  last_read = [];
  attached_once = false;
  current_block_id = none;
  last_broadcast_dropped = 0;
  viewers = [];
  loop = inactive;
  stopped = false;
  poll_timer = no_timer;
  strays = 0;
  ticks = 0;
  sent = [];
  requests = [];
}

abbrev pub has_viewers : ChannelState → Bool
has_viewers cs = elim cs.viewers [ [] ↦ false | l ∷ ls ↦ true ]

abbrev pub is_loop_active : ChannelState → Bool
is_loop_active cs = elim cs.loop [ inactive ↦ false | _ ↦ true ]

-- The delta that `broadcast` makes: the ring goes along where its drop count has grown.
pub delta_of : List HistoryEntry → List HistoryEntry → ChannelState → HubUpdate
delta_of appended updated cs =
    let snap = snapshot cs.ring in
    delta cs.channel_id cs.state cs.detail appended updated snap.dropped_entries snap.dropped_lines
      (if ltb cs.last_broadcast_dropped snap.dropped_entries then some snap else none)

unfoldable pub broadcast : List HistoryEntry → List HistoryEntry → ChannelState → ChannelState
broadcast appended updated cs =
    if has_viewers cs
    then record cs {
      last_broadcast_dropped = (snapshot cs.ring).dropped_entries;
      sent = cs.sent ++ map (λ l. (l, delta_of appended updated cs)) cs.viewers;
    }
    else cs

unfoldable pub set_state : ObservationState → Option Text → ChannelState → ChannelState
set_state state detail cs = broadcast [] [] (record cs { state = state; detail = detail })

abbrev pub request : Request → ChannelState → ChannelState
request r cs = record cs { requests = cs.requests ++ r ∷ [] }

-- `await this.mcp.readChannel(…)`, its request.
abbrev pub request_read : Options → ChannelState → ChannelState
request_read options = request (read options.tail_lines options.tail_bytes)

-- An assignment to `cs.pollTimer` of another timer, or of null, with no call of `clearTimeout`.
unfoldable pub assign_timer : PollTimer → ChannelState → ChannelState
assign_timer timer cs = record cs {
  poll_timer = timer;
  strays = elim cs.poll_timer [ scheduled ↦ cs.strays + 1 | _ ↦ cs.strays ];
}

-- `clearTimeout(cs.pollTimer); cs.pollTimer = null;`
abbrev pub clear_timer : ChannelState → ChannelState
clear_timer cs = record cs { poll_timer = no_timer }

abbrev pub has_timer : ChannelState → Bool
has_timer cs = elim cs.poll_timer [ no_timer ↦ false | _ ↦ true ]

unfoldable pub schedule_poll : ChannelState → ChannelState
schedule_poll cs =
    if has_timer cs || (cs.stopped || not (has_viewers cs))
    then cs
    else assign_timer scheduled (set_state polling none cs)

abbrev pub reobserve_codes : List Text
reobserve_codes =
    codes "CURSOR_INVALID"
    ∷ codes "CURSOR_EXPIRED"
    ∷ codes "OBSERVATION_GAP"
    ∷ codes "CHANNEL_INSTANCE_CHANGED"
    ∷ []

abbrev pub polling_codes : List Text
polling_codes =
    codes "WAITER_LIMIT" ∷ codes "RESOURCE_EXHAUSTED" ∷ codes "OBSERVATION_UNSUPPORTED" ∷ []

unfoldable pub handle_loop_error : McpError → ChannelState → ChannelState
handle_loop_error (tool_error code) cs =
    if includes reobserve_codes code
    then set_state needs_reobserve (some code) (clear_timer cs)
    else if includes polling_codes code || text_eq code (codes "TIMEOUT")
    then schedule_poll (clear_timer cs)
    else set_state error (some code) (clear_timer cs)
handle_loop_error unavailable cs = set_state error (some (codes "MCP_UNAVAILABLE")) (clear_timer cs)
handle_loop_error other_error cs = set_state error (some (codes "INTERNAL")) (clear_timer cs)

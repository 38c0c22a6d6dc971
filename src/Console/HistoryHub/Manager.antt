-- ===== src/Console/HistoryHub/Manager.antt =====
-- console/src/observer.ts, the class `HistoryHub`: the channels in the order in which they came. What
-- an evicted channel still waits for is left out: it has no viewer and is stopped, so that nothing
-- follows from the answer.
use agent_runtime_mcp.Base.{
  ℕ, Bool, true, false, not, ◌&&◌, ◌||◌, Option, none, some, List, [], ◌∷◌, ◌++◌, map, Text,
  text_eq, codes, leb, length, find, sum_of, if◌then◌else◌,
}
use agent_runtime_mcp.Console.Events.{ConsoleEvent}
use agent_runtime_mcp.Console.Events
use agent_runtime_mcp.Console.History.Raw.{format_raw_transcript}
use agent_runtime_mcp.Console.History.Ring.{RingOptions, RingSnapshot, snapshot}
use agent_runtime_mcp.Console.HistoryHub.{
  ObservationState, Options, ChannelState, idle, new_channel, has_viewers, is_loop_active,
}
use agent_runtime_mcp.Console.HistoryHub.Loop.{
  ChannelStep, joins, leaves, records, loop_answer, tick_answer, timer, stray, shuts, step,
}
use agent_runtime_mcp.Console.Json.{Members}
use agent_runtime_mcp.Console.McpClient.Calls.{Answer, answered, failed, tool_error}

pub record Hub : Type 0 where
  pub options : Options
  pub ring_options : RingOptions
  pub max_observed : ℕ
  pub max_managers : ℕ
  pub channels : List ChannelState
  pub subscribed : Bool

unfoldable pub new_hub : Options → RingOptions → (max_observed max_managers : ℕ) → Hub
new_hub options ring_options max_observed max_managers = record {
  options = options;
  ring_options = ring_options;
  max_observed = max_observed;
  max_managers = max_managers;
  channels = [];
  subscribed = true;
}

abbrev pub is_named : Text → ChannelState → Bool
is_named id cs = text_eq cs.channel_id id

-- `this.channels.get(channelId)`
unfoldable pub find_channel : Text → Hub → Option ChannelState
find_channel id h = find (is_named id) h.channels

abbrev pub is_idle : ChannelState → Bool
is_idle cs = not (has_viewers cs) && not (is_loop_active cs)

-- The loop that deletes the first channel without viewers and loop.
unfoldable pub evict_idle : List ChannelState → List ChannelState
evict_idle [] = []
evict_idle (cs ∷ channels) =
    let rest = evict_idle channels in if is_idle cs then channels else cs ∷ rest

abbrev pub with_room : Hub → List ChannelState
with_room h = if leb h.max_managers (length h.channels) then evict_idle h.channels else h.channels

-- `ensure`, where the channel is not there: false if there is no room, which throws.
unfoldable pub add_channel : Text → Hub → Hub × Bool
add_channel id h =
    let channels = with_room h in
    if leb h.max_managers (length channels)
    then (record h { channels = channels }, false)
    else (record h { channels = channels ++ new_channel h.ring_options id ∷ [] }, true)

unfoldable pub ensure : Text → Hub → Hub × Bool
ensure id h = elim (find_channel id h) [ none ↦ add_channel id h | some cs ↦ (h, true) ]

unfoldable pub observed_count : List ChannelState → ℕ
observed_count = sum_of (λ cs. if has_viewers cs then 1 else 0)

-- A method of the channel with that id.
unfoldable pub adjust : (ChannelState → ChannelState) → Text → List ChannelState → List ChannelState
adjust f id [] = []
adjust f id (cs ∷ channels) =
    let rest = adjust f id channels in if is_named id cs then f cs ∷ channels else cs ∷ rest

abbrev pub on_channel : (now : Text) → Text → ChannelStep → Hub → Hub
on_channel now id s h = record h { channels = adjust (step h.options now s) id h.channels }

pub data Status : Type 0 where
  status_of : (state : ObservationState) (detail : Option Text) (viewers : ℕ) → Status

pub status : Text → Hub → Status
status id h = elim (find_channel id h) [
  | none ↦ status_of idle none 0
  | some cs ↦ status_of cs.state cs.detail (length cs.viewers)
]

pub record ChannelSnapshot : Type 0 where
  pub channel_id : Text
  pub state : ObservationState
  pub detail : Option Text
  pub ring : RingSnapshot

abbrev pub snapshot_of : Text → ChannelState → ChannelSnapshot
snapshot_of id cs = record {
  channel_id = id;
  state = cs.state;
  detail = cs.detail;
  ring = snapshot cs.ring;
}

abbrev pub exhausted : {A : Type 0} → Answer A
exhausted = failed (tool_error (codes "RESOURCE_EXHAUSTED"))

-- `snapshot`, which makes the channel if it is not there.
unfoldable pub channel_snapshot : Text → Hub → Hub × Answer ChannelSnapshot
channel_snapshot id h =
    let ensured = ensure id h in
    (
      ensured.0,
      elim (find_channel id ensured.0) [
        | none ↦ exhausted
        | some cs ↦ answered (snapshot_of id cs)
      ],
    )

unfoldable pub raw_transcript : Text → Hub → Hub × Answer Text
raw_transcript id h =
    let (h', taken) = channel_snapshot id h in
    elim taken [
      | failed e ↦ (h', failed e)
      | answered s ↦ (h', answered (format_raw_transcript s.ring))
    ]

-- Whether one more listener may watch the channel.
abbrev pub may_watch : Text → Hub → Bool
may_watch id h = elim (find_channel id h) [
  | none ↦ false
  | some cs ↦ has_viewers cs || not (leb h.max_observed (observed_count h.channels))
]

-- False where it throws.
unfoldable pub add_viewer : (now : Text) → Text → ℕ → Hub → Hub × Bool
add_viewer now id l h =
    let ensured = ensure id h in
    if ensured.1 && may_watch id ensured.0
    then (on_channel now id (joins l) ensured.0, true)
    else (ensured.0, false)

unfoldable pub remove_viewer : (now : Text) → Text → ℕ → Hub → Hub
remove_viewer now id l h = on_channel now id (leaves l) h

abbrev pub event_channel : ConsoleEvent → Text
event_channel (Events.user_turn channel_id text submit sent_at result) = channel_id
event_channel (Events.control channel_id name sent_at result) = channel_id

-- The listener of the event bus.
unfoldable pub record_console_event : (now : Text) → ConsoleEvent → Hub → Hub
record_console_event now event h =
    let ensured = ensure (event_channel event) h in
    if ensured.1 then on_channel now (event_channel event) (records event) ensured.0 else ensured.0

unfoldable pub close : (now : Text) → Hub → Hub
close now h = record h { channels = map (step h.options now shuts) h.channels; subscribed = false }

-- What can happen to a hub: a call, an event of the bus, an answer of the server, or a timer.
pub data HubCall : Type 0 where
  snapshots : Text → HubCall
  watches unwatches : Text → ℕ → HubCall
  hears : ConsoleEvent → HubCall
  loop_answers tick_answers : Text → Answer Members → HubCall
  fires stray_fires : Text → HubCall
  closes : HubCall

unfoldable pub call : (now : Text) → HubCall → Hub → Hub
call now (snapshots id) h = (ensure id h).0
call now (watches id l) h = (add_viewer now id l h).0
call now (unwatches id l) h = remove_viewer now id l h
call now (hears event) h = if h.subscribed then record_console_event now event h else h
call now (loop_answers id answer) h = on_channel now id (loop_answer answer) h
call now (tick_answers id answer) h = on_channel now id (tick_answer answer) h
call now (fires id) h = on_channel now id timer h
call now (stray_fires id) h = on_channel now id stray h
call now closes h = close now h

-- Each call comes with the time at which it is made.
unfoldable pub run : List (Text × HubCall) → Hub → Hub
run [] h = h
run ((now, c) ∷ calls) h = run calls (call now c h)

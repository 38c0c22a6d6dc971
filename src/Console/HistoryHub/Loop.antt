-- ===== src/Console/HistoryHub/Loop.antt =====
-- console/src/observer.ts: the observation loop and the poll timer of one channel, cut where the
-- source awaits an answer. Between two of these steps any other may come.
use agent_runtime_mcp.Base.{
  ℕ, zero, suc, ◌+◌, Bool, true, false, not, ◌&&◌, ◌||◌, Option, none, some, [], ◌∷◌, ◌++◌, Text,
  text_eq, codes, filter, ◌==◌, or_default, if◌then◌else◌,
}
use agent_runtime_mcp.Console.Events.{ConsoleEvent, add_listener}
use agent_runtime_mcp.Console.History.Entry.{BlockState}
use agent_runtime_mcp.Console.History.Ring.{snapshot}
use agent_runtime_mcp.Console.HistoryHub.{
  ObservationState, Options, PullMode, ChannelState, idle, attaching, live, polling, closed,
  earlier, output, inactive, awaits_channel, awaits_event, awaits_initial, awaits_read, no_timer,
  scheduled, fired, observe, wait, snapshot_update, has_viewers, is_loop_active, broadcast,
  set_state, request, request_read, assign_timer, clear_timer, has_timer, handle_loop_error,
}
use agent_runtime_mcp.Console.HistoryHub.Blocks.{
  current_block, close_current_block, record_event, read_of, pull,
}
use agent_runtime_mcp.Console.Json.{Members, find_member, is_true, record_at, string_at}
use agent_runtime_mcp.Console.McpClient.Calls.{McpError, Answer, answered, failed, tool_error}

-- The `finally` of `runLoop`.
unfoldable pub finish_loop : ChannelState → ChannelState
finish_loop cs = record cs {
  loop = inactive;
  state =
      if has_viewers cs
      then cs.state
      else elim cs.state [ live ↦ idle | attaching ↦ idle | other ↦ other ];
}

-- Its `catch`, too.
unfoldable pub fail_loop : McpError → ChannelState → ChannelState
fail_loop e cs = finish_loop (if cs.stopped then cs else handle_loop_error e cs)

unfoldable pub start_loop : ChannelState → ChannelState
start_loop cs =
    request observe
      (set_state attaching none (record cs { loop = awaits_channel; stopped = false }))

abbrev pub is_block_open : ChannelState → Bool
is_block_open cs = elim (current_block cs) [
  | none ↦ false
  | some (id, b) ↦ elim b.state [ BlockState.opened ↦ true | _ ↦ false ]
]

abbrev pub goes_on : ChannelState → Bool
goes_on cs = not cs.stopped && has_viewers cs

-- The head of the `while` loop: the wait is short while output flows.
unfoldable pub wait_or_finish : Options → (saw_activity : Bool) → ChannelState → ChannelState
wait_or_finish o saw_activity cs =
    if goes_on cs
    then request
        (wait cs.cursor o.idle_ms
          (if saw_activity || is_block_open cs then o.busy_timeout_ms else o.timeout_ms))
        (record cs { loop = awaits_event })
    else finish_loop cs

abbrev pub observed_cursor : Members → Option Text
observed_cursor m = string_at (codes "cursor") (record_at (codes "observation") m)

-- The cursor is taken before the first read.
unfoldable pub channel_answered : Options → Answer Members → ChannelState → ChannelState
channel_answered o (failed e) cs = fail_loop e cs
channel_answered o (answered m) cs = elim (observed_cursor m) [
  | none ↦ fail_loop (tool_error (codes "OBSERVATION_UNSUPPORTED")) cs
  | some cursor ↦ request_read o (record cs {
    cursor = some cursor;
    loop = awaits_initial (if cs.attached_once then output else earlier);
  })
]

unfoldable pub initial_answered :
    Options → (now : Text) → PullMode → Answer Members → ChannelState → ChannelState
initial_answered o now mode (failed e) cs = fail_loop e cs
initial_answered o now mode (answered m) cs =
    let pulled = pull mode (read_of now m) cs in
    wait_or_finish o false (
      broadcast pulled.appended pulled.updated
        (set_state live none (record pulled.channel { attached_once = true })))

-- What is done about an event, by its reason.
unfoldable pub event_reason :
    Options → (reason : Text) → (saw_activity : Bool) → ChannelState → ChannelState
event_reason o reason saw_activity cs =
    if text_eq reason (codes "output_idle")
    then request_read o (record cs { loop = awaits_read true saw_activity })
    else if text_eq reason (codes "timeout") && saw_activity
    then request_read o (record cs { loop = awaits_read false saw_activity })
    else if text_eq reason (codes "channel_closed")
    then finish_loop (set_state closed none cs)
    else wait_or_finish o saw_activity cs

abbrev pub next_cursor : Option Text → ChannelState → ChannelState
next_cursor none cs = cs
next_cursor (some cursor) cs = record cs { cursor = some cursor }

unfoldable pub event_answered : Options → Answer Members → ChannelState → ChannelState
event_answered o (failed e) cs = fail_loop e cs
event_answered o (answered m) cs =
    if goes_on cs
    then event_reason o (or_default (string_at (codes "reason") m) [])
        (is_true (find_member (codes "activity_observed") m))
        (next_cursor (string_at (codes "next_cursor") m) cs)
    else finish_loop cs

-- A pause of the output pauses the open block, too.
unfoldable pub read_answered :
    Options
    → (now : Text) → (pauses saw_activity : Bool) → Answer Members
    → ChannelState
    → ChannelState
read_answered o now pauses saw_activity (failed e) cs = fail_loop e cs
read_answered o now true saw_activity (answered m) cs =
    let pulled = pull output (read_of now m) cs in
    let (paused, updated) = close_current_block BlockState.paused now pulled.channel in
    wait_or_finish o saw_activity (broadcast pulled.appended (pulled.updated ++ updated) paused)
read_answered o now false saw_activity (answered m) cs =
    let pulled = pull output (read_of now m) cs in
    wait_or_finish o saw_activity (broadcast pulled.appended pulled.updated pulled.channel)

-- The answer that the loop waits for.
unfoldable pub loop_answered : Options → (now : Text) → Answer Members → ChannelState → ChannelState
loop_answered o now answer cs = elim cs.loop [
  | inactive ↦ cs
  | awaits_channel ↦ channel_answered o answer cs
  | awaits_initial mode ↦ initial_answered o now mode answer cs
  | awaits_event ↦ event_answered o answer cs
  | awaits_read pauses saw_activity ↦ read_answered o now pauses saw_activity answer cs
]

-- `tick`, up to its read.
unfoldable pub tick : Options → ChannelState → ChannelState
tick o cs =
    if goes_on cs
    then request_read o (record cs { ticks = cs.ticks + 1 })
    else assign_timer no_timer cs

-- The timer that `cs.pollTimer` names fires, or another one.
unfoldable pub timer_fires : Options → ChannelState → ChannelState
timer_fires o cs = elim cs.poll_timer [
  | scheduled ↦ tick o (record cs { poll_timer = fired })
  | no_timer ↦ cs
  | fired ↦ cs
]

unfoldable pub stray_fires : Options → ChannelState → ChannelState
stray_fires o cs = elim cs.strays [ zero ↦ cs | suc n ↦ tick o (record cs { strays = n }) ]

abbrev pub tick_done : (now : Text) → Answer Members → ChannelState → ChannelState
tick_done now (failed e) cs = handle_loop_error e cs
tick_done now (answered m) cs =
    let pulled = pull output (read_of now m) cs in
    let told = broadcast pulled.appended pulled.updated pulled.channel in
    assign_timer (if goes_on told then scheduled else no_timer) told

-- `tick`, from the answer of its read on.
unfoldable pub tick_answered : (now : Text) → Answer Members → ChannelState → ChannelState
tick_answered now answer cs = elim cs.ticks [
  | zero ↦ cs
  | suc n ↦ tick_done now answer (record cs { ticks = n })
]

-- `addViewer`, once it is admitted.
unfoldable pub join : ℕ → ChannelState → ChannelState
join l cs =
    let joined : ChannelState = record cs {
      viewers = add_listener l cs.viewers;
      stopped = false;
      sent =
          cs.sent ++ (l, snapshot_update cs.channel_id cs.state cs.detail (snapshot cs.ring)) ∷ [];
      last_broadcast_dropped = (snapshot cs.ring).dropped_entries;
    } in
    if is_loop_active cs || has_timer cs then joined else start_loop joined

abbrev pub rest_state : ChannelState → ObservationState
rest_state cs =
    if is_loop_active cs
    then cs.state
    else elim cs.state [ live ↦ idle | polling ↦ idle | attaching ↦ idle | other ↦ other ]

-- `removeViewer`
unfoldable pub leave : ℕ → ChannelState → ChannelState
leave l cs =
    let left : ChannelState = record cs { viewers = filter (λ m. not (m == l)) cs.viewers } in
    if has_viewers left
    then left
    else clear_timer (record left { stopped = true; state = rest_state cs })

-- What `close` does to each channel.
unfoldable pub shut : ChannelState → ChannelState
shut cs = clear_timer (record cs { stopped = true; viewers = [] })

-- Whatever can happen to a channel.
pub data ChannelStep : Type 0 where
  joins leaves : ℕ → ChannelStep
  records : ConsoleEvent → ChannelStep
  loop_answer tick_answer : Answer Members → ChannelStep
  timer stray shuts : ChannelStep

unfoldable pub step : Options → (now : Text) → ChannelStep → ChannelState → ChannelState
step o now (joins l) cs = join l cs
step o now (leaves l) cs = leave l cs
step o now (records event) cs = record_event now event cs
step o now (loop_answer answer) cs = loop_answered o now answer cs
step o now (tick_answer answer) cs = tick_answered now answer cs
step o now timer cs = timer_fires o cs
step o now stray cs = stray_fires o cs
step o now shuts cs = shut cs

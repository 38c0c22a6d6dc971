-- ===== src/Console/HistoryHub/Order.antt =====
-- console/src/observer.ts: the order of the requests of one channel, over the steps of its loop.
use agent_runtime_mcp.Base.{
  ℕ, zero, suc, ◌+◌, Bool, true, false, ◌&&◌, none, some, Text, ◌≡◌, refl, Option-cases, ◌⊎◌, inl,
  inr, if-elim, codes, text_eq,
}
use agent_runtime_mcp.Console.History.Entry.{BlockState}
use agent_runtime_mcp.Console.HistoryHub.{
  Options, PullMode, LoopPoint, PollTimer, ChannelState, output, inactive, awaits_channel,
  awaits_event, awaits_initial, awaits_read, no_timer, scheduled, fired, closed, live, set_state,
  assign_timer,
}
use agent_runtime_mcp.Console.HistoryHub.Blocks.{pull, read_of}
use agent_runtime_mcp.Console.HistoryHub.Loop.{
  goes_on, observed_cursor, channel_answered, initial_answered, event_reason, event_answered,
  read_answered, loop_answered, tick, timer_fires, stray_fires, tick_done, tick_answered,
}
use agent_runtime_mcp.Console.HistoryHub.Quiet.{
  Quiet-trans, broadcast-Quiet, set_state-Quiet, close_current_block-Quiet, pull-Quiet,
}
use agent_runtime_mcp.Console.Json.{Members, string_at}
use agent_runtime_mcp.Console.McpClient.Calls.{Answer, answered, failed}
use agent_runtime_mcp.Console.HistoryHub.Begun.{
  Speaks, Given, IsBegun, IsBegun-kept, Quiet-IsBegun, request-IsBegun, finish_loop-IsBegun,
  handle_loop_error-IsBegun, fail_loop-IsBegun, wait_or_finish-IsBegun, request_read-IsBegun,
  Quiet-Given,
}

pub LoopPoint-cases :
    (p : LoopPoint)
    → (p ≡ inactive)
      ⊎ (p ≡ awaits_channel)
      ⊎ ((m : PullMode) × (p ≡ awaits_initial m))
      ⊎ (p ≡ awaits_event)
      ⊎ ((pauses : Bool) × (saw : Bool) × (p ≡ awaits_read pauses saw))
LoopPoint-cases inactive = inl refl
LoopPoint-cases awaits_channel = inr (inl refl)
LoopPoint-cases (awaits_initial m) = inr (inr (inl (m, refl)))
LoopPoint-cases awaits_event = inr (inr (inr (inl refl)))
LoopPoint-cases (awaits_read pauses saw) = inr (inr (inr (inr (pauses, saw, refl))))

pub PollTimer-cases : (t : PollTimer) → (t ≡ no_timer) ⊎ (t ≡ scheduled) ⊎ (t ≡ fired)
PollTimer-cases no_timer = inl refl
PollTimer-cases scheduled = inr (inl refl)
PollTimer-cases fired = inr (inr refl)

pub ℕ-cases : (n : ℕ) → (n ≡ zero) ⊎ ((m : ℕ) × (n ≡ suc m))
ℕ-cases zero = inl refl
ℕ-cases (suc m) = inr (m, refl)

module _ (G : Text → Type 0) where
  channel_answered-IsBegun :
      (o : Options) (answer : Answer Members) (cs : ChannelState)
      → Speaks G answer
      → IsBegun G cs
      → IsBegun G (channel_answered o answer cs)
  unfolding channel_answered
  channel_answered-IsBegun o (failed e) cs speaks h = fail_loop-IsBegun G e cs h
  channel_answered-IsBegun o (answered m) cs speaks h = elim (Option-cases (observed_cursor m)) [
    | inl unsupported ↦ rw (unsupported, channel_answered) (fail_loop-IsBegun G _ cs h)
    | inr (cursor, found) ↦
        rw (found, channel_answered)
          (request-IsBegun G _ cs _ (some cursor) cs.ticks tt (speaks.0 cursor found) h)
  ]

  initial_answered-IsBegun :
      (o : Options) (now : Text) (mode : PullMode) (answer : Answer Members) (cs : ChannelState)
      → Given G cs.cursor
      → IsBegun G cs
      → IsBegun G (initial_answered o now mode answer cs)
  unfolding initial_answered
  initial_answered-IsBegun o now mode (failed e) cs g h = fail_loop-IsBegun G e cs h
  initial_answered-IsBegun o now mode (answered m) cs g h =
      let pulled = (pull mode (read_of now m) cs).channel in
      let q = pull-Quiet mode (read_of now m) cs in
      let attached : ChannelState = record pulled { attached_once = true } in
      let later =
        Quiet-trans attached (set_state live none attached) _ (set_state-Quiet live none attached)
          (broadcast-Quiet _ _ _) in
      let first = Quiet-IsBegun G cs pulled q h in
      wait_or_finish-IsBegun G o false _
        (Quiet-Given G attached _ later (Quiet-Given G cs pulled q g))
        (Quiet-IsBegun G attached _ later (IsBegun-kept G pulled _ refl first.cursor_given first))

  event_reason-IsBegun :
      (o : Options) (reason : Text) (saw : Bool) (cs : ChannelState)
      → Given G cs.cursor
      → IsBegun G cs
      → IsBegun G (event_reason o reason saw cs)
  unfolding event_reason
  event_reason-IsBegun o reason saw cs g h =
      if-elim (IsBegun G) (text_eq reason (codes "output_idle")) _ _
        (λ _. request_read-IsBegun G o cs _ cs.ticks g h)
        (λ _.
          if-elim (IsBegun G) (text_eq reason (codes "timeout") && saw) _ _
            (λ _. request_read-IsBegun G o cs _ cs.ticks g h)
            (λ _.
              if-elim (IsBegun G) (text_eq reason (codes "channel_closed")) _ _
                (λ _.
                  finish_loop-IsBegun G _ (Quiet-IsBegun G cs _ (set_state-Quiet closed none cs) h))
                (λ _. wait_or_finish-IsBegun G o saw cs g h)))

  event_answered-IsBegun :
      (o : Options) (answer : Answer Members) (cs : ChannelState)
      → Speaks G answer
      → cs.loop ≡ awaits_event
      → Given G cs.cursor
      → IsBegun G cs
      → IsBegun G (event_answered o answer cs)
  unfolding event_answered
  event_answered-IsBegun o (failed e) cs speaks at g h = fail_loop-IsBegun G e cs h
  event_answered-IsBegun o (answered m) cs speaks at g h =
      if-elim (IsBegun G) (goes_on cs) _ _
        (λ _. elim (Option-cases (string_at (codes "next_cursor") m)) [
          | inl same ↦ rw same (event_reason-IsBegun o _ _ cs g h)
          | inr (cursor, new) ↦ rw new (
              event_reason-IsBegun o _ _ (record cs { cursor = some cursor }) (speaks.1 cursor new)
                (IsBegun-kept G cs _ refl (rw at (speaks.1 cursor new)) h))
        ])
        (λ _. finish_loop-IsBegun G cs h)

  read_answered-IsBegun :
      (o : Options) (now : Text) (pauses saw : Bool) (answer : Answer Members) (cs : ChannelState)
      → Given G cs.cursor
      → IsBegun G cs
      → IsBegun G (read_answered o now pauses saw answer cs)
  unfolding read_answered
  read_answered-IsBegun o now pauses saw (failed e) cs g h = fail_loop-IsBegun G e cs h
  read_answered-IsBegun o now true saw (answered m) cs g h =
      let pulled = (pull output (read_of now m) cs).channel in
      let q = Quiet-trans cs pulled _ (pull-Quiet output (read_of now m) cs) (
        Quiet-trans pulled _ _ (close_current_block-Quiet BlockState.paused now pulled)
          (broadcast-Quiet _ _ _)) in
      wait_or_finish-IsBegun G o saw _ (Quiet-Given G cs _ q g) (Quiet-IsBegun G cs _ q h)
  read_answered-IsBegun o now false saw (answered m) cs g h =
      let q =
        Quiet-trans cs (pull output (read_of now m) cs).channel _
          (pull-Quiet output (read_of now m) cs) (broadcast-Quiet _ _ _) in
      wait_or_finish-IsBegun G o saw _ (Quiet-Given G cs _ q g) (Quiet-IsBegun G cs _ q h)

  pub loop_answered-IsBegun :
      (o : Options) (now : Text) (answer : Answer Members) (cs : ChannelState)
      → Speaks G answer
      → IsBegun G cs
      → IsBegun G (loop_answered o now answer cs)
  unfolding loop_answered
  loop_answered-IsBegun o now answer cs speaks h = elim (LoopPoint-cases cs.loop) [
    | inl at ↦ rw (at, loop_answered) h
    | inr (inl at) ↦ rw (at, loop_answered) (channel_answered-IsBegun o answer cs speaks h)
    | inr (inr (inl (m, at))) ↦
        rw (at, loop_answered)
          (initial_answered-IsBegun o now m answer cs (rw at at h.cursor_given) h)
    | inr (inr (inr (inl at))) ↦
        rw (at, loop_answered)
          (event_answered-IsBegun o answer cs speaks at (rw at at h.cursor_given) h)
    | inr (inr (inr (inr (pauses, saw, at)))) ↦
        rw (at, loop_answered)
          (read_answered-IsBegun o now pauses saw answer cs (rw at at h.cursor_given) h)
  ]

  tick-IsBegun : (o : Options) (cs : ChannelState) → IsBegun G cs → IsBegun G (tick o cs)
  unfolding tick assign_timer
  tick-IsBegun o cs h =
      if-elim (IsBegun G) (goes_on cs) _ _
        (λ _. request_read-IsBegun G o cs cs.loop (cs.ticks + 1) h.cursor_given h)
        (λ _. IsBegun-kept G cs _ refl h.cursor_given h)

  pub timer_fires-IsBegun :
      (o : Options) (cs : ChannelState) → IsBegun G cs → IsBegun G (timer_fires o cs)
  unfolding timer_fires
  timer_fires-IsBegun o cs h = elim (PollTimer-cases cs.poll_timer) [
    | inl at ↦ rw (at, timer_fires) h
    | inr (inl at) ↦
        rw (at, timer_fires) (tick-IsBegun o _ (IsBegun-kept G cs _ refl h.cursor_given h))
    | inr (inr at) ↦ rw (at, timer_fires) h
  ]

  pub stray_fires-IsBegun :
      (o : Options) (cs : ChannelState) → IsBegun G cs → IsBegun G (stray_fires o cs)
  unfolding stray_fires
  stray_fires-IsBegun o cs h = elim (ℕ-cases cs.strays) [
    | inl at ↦ rw (at, stray_fires) h
    | inr (n, at) ↦
        rw (at, stray_fires) (tick-IsBegun o _ (IsBegun-kept G cs _ refl h.cursor_given h))
  ]

  tick_done-IsBegun :
      (now : Text) (answer : Answer Members) (cs : ChannelState)
      → IsBegun G cs
      → IsBegun G (tick_done now answer cs)
  unfolding assign_timer
  tick_done-IsBegun now (failed e) cs h = handle_loop_error-IsBegun G e cs h
  tick_done-IsBegun now (answered m) cs h =
      let pulled = (pull output (read_of now m) cs).channel in
      let told =
        Quiet-IsBegun G cs _
          (Quiet-trans cs pulled _ (pull-Quiet output (read_of now m) cs) (broadcast-Quiet _ _ _))
          h in
      IsBegun-kept G _ _ refl told.cursor_given told

  pub tick_answered-IsBegun :
      (now : Text) (answer : Answer Members) (cs : ChannelState)
      → IsBegun G cs
      → IsBegun G (tick_answered now answer cs)
  unfolding tick_answered
  tick_answered-IsBegun now answer cs h = elim (ℕ-cases cs.ticks) [
    | inl at ↦ rw (at, tick_answered) h
    | inr (n, at) ↦
        rw (at, tick_answered)
          (tick_done-IsBegun now answer _ (IsBegun-kept G cs _ refl h.cursor_given h))
  ]

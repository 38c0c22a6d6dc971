-- ===== src/Console/HistoryHub/Keeps.antt =====
-- console/src/observer.ts: the loop and the timers leave the viewers alone, and keep the ring within
-- its ceilings and numbered.
use agent_runtime_mcp.Console.History.Ring.{Ring}
use agent_runtime_mcp.Console.HistoryHub.OnlyCurrent.{SoundAt}
use agent_runtime_mcp.Base.{
  ℤ, Option, sym, subst, Bool, true, false, not, ◌&&◌, ◌||◌, Option, none, some, Text, ◌≡◌, refl,
  ◌∙◌, Option-cases, inl, inr, if-elim, codes, text_eq,
}
use agent_runtime_mcp.Console.History.Entry.{BlockState}
use agent_runtime_mcp.Console.HistoryHub.{
  ObservationState, Options, PullMode, ChannelState, output, fired, awaits_channel, polling, live,
  closed, attaching, has_viewers, set_state, clear_timer, has_timer, schedule_poll,
  handle_loop_error, assign_timer, reobserve_codes, polling_codes,
}
use agent_runtime_mcp.Console.HistoryHub.Blocks.{pull, read_of, close_current_block}
use agent_runtime_mcp.Console.HistoryHub.Loop.{
  finish_loop, fail_loop, start_loop, goes_on, wait_or_finish, observed_cursor, channel_answered,
  initial_answered, event_reason, event_answered, read_answered, loop_answered, tick, timer_fires,
  stray_fires, tick_done, tick_answered,
}
use agent_runtime_mcp.Console.HistoryHub.Order.{LoopPoint-cases, PollTimer-cases, ℕ-cases}
use agent_runtime_mcp.Console.HistoryHub.Quiet.{
  Quiet, Quiet-trans, broadcast-Quiet, set_state-Quiet, close_current_block-Quiet, pull-Quiet,
}
use agent_runtime_mcp.Console.Json.{Members, string_at}
use agent_runtime_mcp.Console.McpClient.Calls.{
  McpError, unavailable, tool_error, other_error, Answer, answered, failed,
}
use agent_runtime_mcp.Console.Tmux.{includes}

pub record Keeps (cs cs' : ChannelState) : Type 0 where
  pub same_viewers : cs'.viewers ≡ cs.viewers
  pub ring_good : SoundAt cs.current_block_id cs.ring → SoundAt cs'.current_block_id cs'.ring

-- What the blocks of output are in.
abbrev history_of : ChannelState → Option ℤ × Ring
history_of cs = (cs.current_block_id, cs.ring)

Keeps-fields :
    (cs cs' : ChannelState)
    → cs'.viewers ≡ cs.viewers
    → history_of cs' ≡ history_of cs
    → Keeps cs cs'
Keeps-fields cs cs' v r = record {
  same_viewers = v;
  ring_good = subst (λ (p : Option ℤ × Ring). SoundAt p.0 p.1) (sym r);
}

Keeps-refl : (cs : ChannelState) → Keeps cs cs
Keeps-refl cs = Keeps-fields cs cs refl refl

Keeps-trans : (a b c : ChannelState) → Keeps a b → Keeps b c → Keeps a c
Keeps-trans a b c p q = record {
  same_viewers = q.same_viewers ∙ p.same_viewers;
  ring_good = λ h. q.ring_good (p.ring_good h);
}

pub Quiet-Keeps : (cs cs' : ChannelState) → Quiet cs cs' → Keeps cs cs'
Quiet-Keeps cs cs' q = record { same_viewers = q.same_viewers; ring_good = q.ring_good }

-- The same up to fields that `Keeps` is not about, then quiet.
Keeps-Quiet :
    (cs a b : ChannelState)
    → a.viewers ≡ cs.viewers
    → history_of a ≡ history_of cs
    → Quiet a b
    → Keeps cs b
Keeps-Quiet cs a b v r q = Keeps-trans cs a b (Keeps-fields cs a v r) (Quiet-Keeps a b q)

Keeps-from :
    (cs a b : ChannelState)
    → cs.viewers ≡ a.viewers
    → history_of cs ≡ history_of a
    → Keeps cs b
    → Keeps a b
Keeps-from cs a b v r k = Keeps-trans a cs b (Keeps-fields a cs v r) k

finish_loop-Keeps : (cs : ChannelState) → Keeps cs (finish_loop cs)
unfolding finish_loop
finish_loop-Keeps cs = Keeps-fields cs _ refl refl

schedule_poll-Keeps : (cs : ChannelState) → Keeps cs (schedule_poll cs)
unfolding schedule_poll assign_timer
schedule_poll-Keeps cs =
    if-elim (Keeps cs) (has_timer cs || (cs.stopped || not (has_viewers cs))) _ _
      (λ _. Keeps-refl cs)
      (λ _.
        Keeps-trans cs (set_state polling none cs) _
          (Quiet-Keeps cs _ (set_state-Quiet polling none cs)) (Keeps-fields _ _ refl refl))

told_cleared-Keeps :
    (s : ObservationState) (detail : Option Text) (cs : ChannelState)
    → Keeps cs (set_state s detail (clear_timer cs))
told_cleared-Keeps s detail cs =
    Keeps-Quiet cs (clear_timer cs) _ refl refl (set_state-Quiet s detail (clear_timer cs))

handle_loop_error-Keeps : (e : McpError) (cs : ChannelState) → Keeps cs (handle_loop_error e cs)
unfolding handle_loop_error
handle_loop_error-Keeps (tool_error code) cs =
    if-elim (Keeps cs) (includes reobserve_codes code) _ _ (λ _. told_cleared-Keeps _ _ cs)
      (λ _.
        if-elim (Keeps cs) (includes polling_codes code || text_eq code (codes "TIMEOUT")) _ _
          (λ _.
            Keeps-trans cs (clear_timer cs) _ (Keeps-fields cs _ refl refl)
              (schedule_poll-Keeps (clear_timer cs)))
          (λ _. told_cleared-Keeps _ _ cs))
handle_loop_error-Keeps unavailable cs = told_cleared-Keeps _ _ cs
handle_loop_error-Keeps other_error cs = told_cleared-Keeps _ _ cs

fail_loop-Keeps : (e : McpError) (cs : ChannelState) → Keeps cs (fail_loop e cs)
unfolding fail_loop
fail_loop-Keeps e cs =
    if-elim (λ (cs' : ChannelState). Keeps cs (finish_loop cs')) cs.stopped cs
      (handle_loop_error e cs) (λ _. finish_loop-Keeps cs)
      (λ _.
        Keeps-trans cs (handle_loop_error e cs) _ (handle_loop_error-Keeps e cs)
          (finish_loop-Keeps _))

wait_or_finish-Keeps :
    (o : Options) (saw : Bool) (cs : ChannelState) → Keeps cs (wait_or_finish o saw cs)
unfolding wait_or_finish
wait_or_finish-Keeps o saw cs =
    if-elim (Keeps cs) (goes_on cs) _ _ (λ _. Keeps-fields cs _ refl refl)
      (λ _. finish_loop-Keeps cs)

channel_answered-Keeps :
    (o : Options) (answer : Answer Members) (cs : ChannelState)
    → Keeps cs (channel_answered o answer cs)
unfolding channel_answered
channel_answered-Keeps o (failed e) cs = fail_loop-Keeps e cs
channel_answered-Keeps o (answered m) cs = elim (Option-cases (observed_cursor m)) [
  | inl unsupported ↦ rw (unsupported, channel_answered) (fail_loop-Keeps _ cs)
  | inr (cursor, found) ↦ rw (found, channel_answered) (Keeps-fields cs _ refl refl)
]

initial_answered-Keeps :
    (o : Options) (now : Text) (mode : PullMode) (answer : Answer Members) (cs : ChannelState)
    → Keeps cs (initial_answered o now mode answer cs)
unfolding initial_answered
initial_answered-Keeps o now mode (failed e) cs = fail_loop-Keeps e cs
initial_answered-Keeps o now mode (answered m) cs =
    let pulled = (pull mode (read_of now m) cs).channel in
    let attached : ChannelState = record pulled { attached_once = true } in
    Keeps-trans cs pulled _ (Quiet-Keeps cs pulled (pull-Quiet mode _ cs)) (
      Keeps-trans pulled _ _
        (Keeps-Quiet pulled attached _ refl refl (
          Quiet-trans attached (set_state live none attached) _ (set_state-Quiet live none attached)
            (broadcast-Quiet _ _ _)))
        (wait_or_finish-Keeps o false _))

event_reason-Keeps :
    (o : Options) (reason : Text) (saw : Bool) (cs : ChannelState)
    → Keeps cs (event_reason o reason saw cs)
unfolding event_reason
event_reason-Keeps o reason saw cs =
    if-elim (Keeps cs) (text_eq reason (codes "output_idle")) _ _ (λ _. Keeps-fields cs _ refl refl)
      (λ _.
        if-elim (Keeps cs) (text_eq reason (codes "timeout") && saw) _ _
          (λ _. Keeps-fields cs _ refl refl)
          (λ _.
            if-elim (Keeps cs) (text_eq reason (codes "channel_closed")) _ _
              (λ _.
                Keeps-trans cs (set_state closed none cs) _
                  (Quiet-Keeps cs _ (set_state-Quiet closed none cs)) (finish_loop-Keeps _))
              (λ _. wait_or_finish-Keeps o saw cs)))

event_answered-Keeps :
    (o : Options) (answer : Answer Members) (cs : ChannelState)
    → Keeps cs (event_answered o answer cs)
unfolding event_answered
event_answered-Keeps o (failed e) cs = fail_loop-Keeps e cs
event_answered-Keeps o (answered m) cs =
    if-elim (Keeps cs) (goes_on cs) _ _
      (λ _. elim (Option-cases (string_at (codes "next_cursor") m)) [
        | inl same ↦ rw same (event_reason-Keeps o _ _ cs)
        | inr (cursor, new) ↦ rw new (
            Keeps-trans cs (record cs { cursor = some cursor }) _ (Keeps-fields cs _ refl refl)
              (event_reason-Keeps o _ _ (record cs { cursor = some cursor })))
      ])
      (λ _. finish_loop-Keeps cs)

read_answered-Keeps :
    (o : Options) (now : Text) (pauses saw : Bool) (answer : Answer Members) (cs : ChannelState)
    → Keeps cs (read_answered o now pauses saw answer cs)
unfolding read_answered
read_answered-Keeps o now pauses saw (failed e) cs = fail_loop-Keeps e cs
read_answered-Keeps o now true saw (answered m) cs =
    let pulled = (pull output (read_of now m) cs).channel in
    let paused = (close_current_block BlockState.paused now pulled).0 in
    Keeps-trans cs _ _
      (Quiet-Keeps cs _ (
        Quiet-trans cs pulled _ (pull-Quiet output _ cs) (
          Quiet-trans pulled paused _ (close_current_block-Quiet BlockState.paused now pulled)
            (broadcast-Quiet _ _ paused))))
      (wait_or_finish-Keeps o saw _)
read_answered-Keeps o now false saw (answered m) cs =
    let pulled = (pull output (read_of now m) cs).channel in
    Keeps-trans cs _ _
      (Quiet-Keeps cs _
        (Quiet-trans cs pulled _ (pull-Quiet output _ cs) (broadcast-Quiet _ _ pulled)))
      (wait_or_finish-Keeps o saw _)

pub loop_answered-Keeps :
    (o : Options) (now : Text) (answer : Answer Members) (cs : ChannelState)
    → Keeps cs (loop_answered o now answer cs)
unfolding loop_answered
loop_answered-Keeps o now answer cs = elim (LoopPoint-cases cs.loop) [
  | inl at ↦ rw (at, loop_answered) (Keeps-fields _ cs refl refl)
  | inr (inl at) ↦
      rw (at, loop_answered) (Keeps-from cs _ _ refl refl (channel_answered-Keeps o answer cs))
  | inr (inr (inl (m, at))) ↦
      rw (at, loop_answered)
        (Keeps-from cs _ _ refl refl (initial_answered-Keeps o now m answer cs))
  | inr (inr (inr (inl at))) ↦
      rw (at, loop_answered) (Keeps-from cs _ _ refl refl (event_answered-Keeps o answer cs))
  | inr (inr (inr (inr (pauses, saw, at)))) ↦
      rw (at, loop_answered)
        (Keeps-from cs _ _ refl refl (read_answered-Keeps o now pauses saw answer cs))
]

tick-Keeps : (o : Options) (cs : ChannelState) → Keeps cs (tick o cs)
unfolding tick assign_timer
tick-Keeps o cs =
    if-elim (Keeps cs) (goes_on cs) _ _ (λ _. Keeps-fields cs _ refl refl)
      (λ _. Keeps-fields cs _ refl refl)

pub timer_fires-Keeps : (o : Options) (cs : ChannelState) → Keeps cs (timer_fires o cs)
unfolding timer_fires
timer_fires-Keeps o cs = elim (PollTimer-cases cs.poll_timer) [
  | inl at ↦ rw (at, timer_fires) (Keeps-fields _ cs refl refl)
  | inr (inl at) ↦
      rw (at, timer_fires)
        (Keeps-from cs _ _ refl refl (
          Keeps-trans cs (record cs { poll_timer = fired }) _ (Keeps-fields cs _ refl refl)
            (tick-Keeps o _)))
  | inr (inr at) ↦ rw (at, timer_fires) (Keeps-fields _ cs refl refl)
]

pub stray_fires-Keeps : (o : Options) (cs : ChannelState) → Keeps cs (stray_fires o cs)
unfolding stray_fires
stray_fires-Keeps o cs = elim (ℕ-cases cs.strays) [
  | inl at ↦ rw (at, stray_fires) (Keeps-fields _ cs refl refl)
  | inr (n, at) ↦
      rw (at, stray_fires)
        (Keeps-from cs _ _ refl refl (
          Keeps-trans cs (record cs { strays = n }) _ (Keeps-fields cs _ refl refl)
            (tick-Keeps o _)))
]

tick_done-Keeps :
    (now : Text) (answer : Answer Members) (cs : ChannelState) → Keeps cs (tick_done now answer cs)
unfolding assign_timer
tick_done-Keeps now (failed e) cs = handle_loop_error-Keeps e cs
tick_done-Keeps now (answered m) cs =
    let pulled = (pull output (read_of now m) cs).channel in
    Keeps-trans cs _ _
      (Quiet-Keeps cs _
        (Quiet-trans cs pulled _ (pull-Quiet output _ cs) (broadcast-Quiet _ _ pulled)))
      (Keeps-fields _ _ refl refl)

pub tick_answered-Keeps :
    (now : Text) (answer : Answer Members) (cs : ChannelState)
    → Keeps cs (tick_answered now answer cs)
unfolding tick_answered
tick_answered-Keeps now answer cs = elim (ℕ-cases cs.ticks) [
  | inl at ↦ rw (at, tick_answered) (Keeps-fields _ cs refl refl)
  | inr (n, at) ↦
      rw (at, tick_answered)
        (Keeps-from cs _ _ refl refl (
          Keeps-trans cs (record cs { ticks = n }) _ (Keeps-fields cs _ refl refl)
            (tick_done-Keeps now answer _)))
]

pub start_loop-Keeps : (cs : ChannelState) → Keeps cs (start_loop cs)
unfolding start_loop
start_loop-Keeps cs =
    let armed : ChannelState = record cs { loop = awaits_channel; stopped = false } in
    Keeps-trans cs (set_state attaching none armed) _
      (Keeps-Quiet cs armed _ refl refl (set_state-Quiet attaching none armed))
      (Keeps-fields _ _ refl refl)

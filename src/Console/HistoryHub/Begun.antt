-- ===== src/Console/HistoryHub/Begun.antt =====
-- console/src/observer.ts: a channel whose observation has begun, and what keeps it so.
use agent_runtime_mcp.Base.{
  ℕ, Bool, not, ◌||◌, Option, none, some, List, [], ◌∷◌, ◌++◌, Text, ◌≡◌, refl, ap, All, All-append,
  ◌⊎◌, if-elim, codes, text_eq,
}
use agent_runtime_mcp.Console.HistoryHub.{
  ObservationState, Options, LoopPoint, Request, ChannelState, inactive, awaits_channel,
  awaits_event, no_timer, observe, wait, polling, has_viewers, set_state, request, request_read,
  assign_timer, clear_timer, has_timer, schedule_poll, handle_loop_error, reobserve_codes,
  polling_codes,
}
use agent_runtime_mcp.Console.HistoryHub.Loop.{finish_loop, fail_loop, goes_on, wait_or_finish}
use agent_runtime_mcp.Console.HistoryHub.Quiet.{Quiet, set_state-Quiet}
use agent_runtime_mcp.Console.McpClient.Calls.{
  McpError, unavailable, tool_error, other_error, Answer, answered, failed,
}
use agent_runtime_mcp.Console.Json.{Members, record_at, string_at}
use agent_runtime_mcp.Console.Tmux.{includes}

-- The channel was observed before anything was read or waited for.
abbrev pub StartsWithObserve : List Request → Type 0
StartsWithObserve rs = (rest : List Request) × (rs ≡ observe ∷ rest)

-- Nothing was asked yet, and nothing is under way.
pub record IsUntouched (cs : ChannelState) : Type 0 where
  pub no_requests : cs.requests ≡ []
  pub no_loop : cs.loop ≡ inactive
  pub no_poll : cs.poll_timer ≡ no_timer
  pub no_strays : cs.strays ≡ 0
  pub no_ticks : cs.ticks ≡ 0

-- `G` says which cursors the server has given.
module _ (G : Text → Type 0) where
  -- The cursor is one of those that `G` allows.
  abbrev pub Given : Option Text → Type 0
  Given none = ⊥
  Given (some cursor) = G cursor

  -- Every cursor of an answer of the server is allowed: that of an observation, and that of an event.
  abbrev pub Speaks : Answer Members → Type 0
  Speaks (failed e) = Unit
  Speaks (answered m) =
      ((cursor : Text)
        → string_at (codes "cursor") (record_at (codes "observation") m) ≡ some cursor
        → G cursor)
      × ((cursor : Text) → string_at (codes "next_cursor") m ≡ some cursor → G cursor)

  -- A wait goes on from such a cursor.
  abbrev pub IsNamed : Request → Type 0
  IsNamed r = elim r [ wait cursor idle_ms timeout_ms ↦ Given cursor | _ ↦ Unit ]

  -- Behind the attach the loop has such a cursor.
  abbrev pub HasCursor : LoopPoint → Option Text → Type 0
  HasCursor p cursor = elim p [ inactive ↦ Unit | awaits_channel ↦ Unit | _ ↦ Given cursor ]

  pub record IsBegun (cs : ChannelState) : Type 0 where
    pub observed : StartsWithObserve cs.requests
    pub named : All IsNamed cs.requests
    pub cursor_given : HasCursor cs.loop cs.cursor

  abbrev pub IsOrdered : ChannelState → Type 0
  IsOrdered cs = IsBegun cs ⊎ IsUntouched cs

  pub IsBegun-kept :
      (cs cs' : ChannelState)
      → cs'.requests ≡ cs.requests
      → HasCursor cs'.loop cs'.cursor
      → IsBegun cs
      → IsBegun cs'
  IsBegun-kept cs cs' e c h = record {
    observed = rw e h.observed;
    named = rw e h.named;
    cursor_given = c;
  }

  pub Quiet-IsBegun : (cs cs' : ChannelState) → Quiet cs cs' → IsBegun cs → IsBegun cs'
  Quiet-IsBegun cs cs' q h =
      IsBegun-kept cs cs' q.same_requests (rw (q.same_loop, q.same_cursor) h.cursor_given) h

  -- One more request, at whatever point of the loop.
  pub request-IsBegun :
      (r : Request) (cs : ChannelState) (p : LoopPoint) (cursor : Option Text) (ticks : ℕ)
      → IsNamed r
      → HasCursor p cursor
      → IsBegun cs
      → IsBegun (request r (record cs { loop = p; cursor = cursor; ticks = ticks }))
  request-IsBegun r cs p cursor ticks named c h = record {
    observed = (h.observed.0 ++ r ∷ [], ap (λ rs. rs ++ r ∷ []) h.observed.1);
    named = All-append IsNamed cs.requests (r ∷ []) h.named (named, tt);
    cursor_given = c;
  }

  pub finish_loop-IsBegun : (cs : ChannelState) → IsBegun cs → IsBegun (finish_loop cs)
  unfolding finish_loop
  finish_loop-IsBegun cs h = IsBegun-kept cs _ refl tt h

  schedule_poll-IsBegun : (cs : ChannelState) → IsBegun cs → IsBegun (schedule_poll cs)
  unfolding schedule_poll assign_timer
  schedule_poll-IsBegun cs h =
      let told = Quiet-IsBegun cs (set_state polling none cs) (set_state-Quiet polling none cs) h in
      if-elim IsBegun (has_timer cs || (cs.stopped || not (has_viewers cs))) _ _ (λ _. h)
        (λ _. IsBegun-kept (set_state polling none cs) _ refl told.cursor_given told)

  clear_timer-IsBegun : (cs : ChannelState) → IsBegun cs → IsBegun (clear_timer cs)
  clear_timer-IsBegun cs h = IsBegun-kept cs _ refl h.cursor_given h

  told_cleared-IsBegun :
      (s : ObservationState) (detail : Option Text) (cs : ChannelState)
      → IsBegun cs
      → IsBegun (set_state s detail (clear_timer cs))
  told_cleared-IsBegun s detail cs h =
      Quiet-IsBegun (clear_timer cs) _ (set_state-Quiet s detail _) (clear_timer-IsBegun cs h)

  pub handle_loop_error-IsBegun :
      (e : McpError) (cs : ChannelState) → IsBegun cs → IsBegun (handle_loop_error e cs)
  unfolding handle_loop_error
  handle_loop_error-IsBegun (tool_error code) cs h =
      if-elim IsBegun (includes reobserve_codes code) _ _ (λ _. told_cleared-IsBegun _ _ cs h)
        (λ _.
          if-elim IsBegun (includes polling_codes code || text_eq code (codes "TIMEOUT")) _ _
            (λ _. schedule_poll-IsBegun _ (clear_timer-IsBegun cs h))
            (λ _. told_cleared-IsBegun _ _ cs h))
  handle_loop_error-IsBegun unavailable cs h = told_cleared-IsBegun _ _ cs h
  handle_loop_error-IsBegun other_error cs h = told_cleared-IsBegun _ _ cs h

  pub fail_loop-IsBegun : (e : McpError) (cs : ChannelState) → IsBegun cs → IsBegun (fail_loop e cs)
  unfolding fail_loop
  fail_loop-IsBegun e cs h =
      finish_loop-IsBegun _
        (if-elim IsBegun cs.stopped cs _ (λ _. h) (λ _. handle_loop_error-IsBegun e cs h))

  pub wait_or_finish-IsBegun :
      (o : Options) (saw : Bool) (cs : ChannelState)
      → Given cs.cursor
      → IsBegun cs
      → IsBegun (wait_or_finish o saw cs)
  unfolding wait_or_finish
  wait_or_finish-IsBegun o saw cs given h =
      if-elim IsBegun (goes_on cs) _ _
        (λ _. request-IsBegun _ cs awaits_event cs.cursor cs.ticks given given h)
        (λ _. finish_loop-IsBegun cs h)

  pub request_read-IsBegun :
      (o : Options) (cs : ChannelState) (p : LoopPoint) (ticks : ℕ)
      → HasCursor p cs.cursor
      → IsBegun cs
      → IsBegun (request_read o (record cs { loop = p; ticks = ticks }))
  request_read-IsBegun o cs p ticks c h = request-IsBegun _ cs p cs.cursor ticks tt c h

  pub Quiet-Given : (cs cs' : ChannelState) → Quiet cs cs' → Given cs.cursor → Given cs'.cursor
  Quiet-Given cs cs' q g = rw q.same_cursor g

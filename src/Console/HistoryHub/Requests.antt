-- ===== src/Console/HistoryHub/Requests.antt =====
-- console/src/observer.ts: what a hub asks the server about its channels.
use agent_runtime_mcp.Base.{
  ℕ, true, false, not, ◌||◌, none, some, List, [], ◌∷◌, ◌⊎◌, subst, codes, Text, ◌≡◌, refl, All,
  inl, inr, if-elim, filter, ◌==◌,
}
use agent_runtime_mcp.Console.History.Ring.{RingOptions}
use agent_runtime_mcp.Console.HistoryHub.{
  Options, ChannelState, awaits_channel, attaching, observe, new_channel, has_viewers,
  is_loop_active, has_timer, set_state, clear_timer,
}
use agent_runtime_mcp.Console.HistoryHub.Begun.{
  Speaks, IsBegun, IsUntouched, IsOrdered, IsBegun-kept, Quiet-IsBegun, request-IsBegun,
}
use agent_runtime_mcp.Console.HistoryHub.Lifted.{OfStep, OfCall, OfCall-loop_answers, run-All-known}
use agent_runtime_mcp.Console.HistoryHub.Loop.{
  ChannelStep, joins, leaves, records, loop_answer, tick_answer, timer, stray, shuts, step,
  start_loop, loop_answered, timer_fires, stray_fires, tick_answered, join, leave, shut,
}
use agent_runtime_mcp.Console.HistoryHub.Manager.{HubCall, loop_answers, new_hub, run}
use agent_runtime_mcp.Console.Json.{Members, record_at, string_at}
use agent_runtime_mcp.Console.McpClient.Calls.{Answer, answered, failed}
use agent_runtime_mcp.Console.HistoryHub.Order.{
  loop_answered-IsBegun, timer_fires-IsBegun, stray_fires-IsBegun, tick_answered-IsBegun,
}
use agent_runtime_mcp.Console.HistoryHub.Quiet.{Quiet, record_event-Quiet, set_state-Quiet}

module _ (G : Text → Type 0) where
  Quiet-IsUntouched : (cs cs' : ChannelState) → Quiet cs cs' → IsUntouched cs → IsUntouched cs'
  Quiet-IsUntouched cs cs' q u = record {
    no_requests = rw q.same_requests u.no_requests;
    no_loop = rw q.same_loop u.no_loop;
    no_poll = rw q.same_timer u.no_poll;
    no_strays = rw q.same_strays u.no_strays;
    no_ticks = rw q.same_ticks u.no_ticks;
  }

  Quiet-IsOrdered : (cs cs' : ChannelState) → Quiet cs cs' → IsOrdered G cs → IsOrdered G cs'
  Quiet-IsOrdered cs cs' q (inl h) = inl (Quiet-IsBegun G cs cs' q h)
  Quiet-IsOrdered cs cs' q (inr u) = inr (Quiet-IsUntouched cs cs' q u)

  start_loop-IsBegun : (cs : ChannelState) → IsBegun G cs → IsBegun G (start_loop cs)
  unfolding start_loop
  start_loop-IsBegun cs h =
      let armed : ChannelState = record cs { loop = awaits_channel; stopped = false } in
      let told = set_state attaching none armed in
      let q = set_state-Quiet attaching none armed in
      request-IsBegun G observe told told.loop told.cursor told.ticks tt (rw q.same_loop tt)
        (Quiet-IsBegun G armed told q (IsBegun-kept G cs armed refl tt h))

  start_loop-IsUntouched : (cs : ChannelState) → IsUntouched cs → IsBegun G (start_loop cs)
  unfolding start_loop
  start_loop-IsUntouched cs u =
      let armed : ChannelState = record cs { loop = awaits_channel; stopped = false } in
      let q = set_state-Quiet attaching none armed in
      record {
        observed = ([], rw (q.same_requests, u.no_requests) refl);
        named = rw (q.same_requests, u.no_requests) (tt, tt);
        cursor_given = rw q.same_loop tt;
      }

  join-IsOrdered : (l : ℕ) (cs : ChannelState) → IsOrdered G cs → IsOrdered G (join l cs)
  unfolding join
  join-IsOrdered l cs (inl h) =
      if-elim (IsOrdered G) (is_loop_active cs || has_timer cs) _ _
        (λ _. inl (IsBegun-kept G cs _ refl h.cursor_given h))
        (λ _. inl (start_loop-IsBegun _ (IsBegun-kept G cs _ refl h.cursor_given h)))
  join-IsOrdered l cs (inr u) =
      rw (u.no_loop, u.no_poll, join)
        (inl (
          start_loop-IsUntouched _ (record {
            no_requests = u.no_requests;
            no_loop = refl;
            no_poll = refl;
            no_strays = u.no_strays;
            no_ticks = u.no_ticks;
          })))

  IsOrdered-kept :
      (cs cs' : ChannelState)
      → cs'.requests ≡ cs.requests
      → cs'.loop ≡ cs.loop
      → cs'.cursor ≡ cs.cursor
      → cs'.poll_timer ≡ cs.poll_timer
      → cs'.strays ≡ cs.strays
      → cs'.ticks ≡ cs.ticks
      → IsOrdered G cs
      → IsOrdered G cs'
  IsOrdered-kept cs cs' r l c p s t (inl h) =
      inl (IsBegun-kept G cs cs' r (rw (l, c) h.cursor_given) h)
  IsOrdered-kept cs cs' r l c p s t (inr u) = inr (record {
    no_requests = rw r u.no_requests;
    no_loop = rw l u.no_loop;
    no_poll = rw p u.no_poll;
    no_strays = rw s u.no_strays;
    no_ticks = rw t u.no_ticks;
  })

  clear_timer-IsOrdered : (cs : ChannelState) → IsOrdered G cs → IsOrdered G (clear_timer cs)
  clear_timer-IsOrdered cs (inl h) = inl (IsBegun-kept G cs _ refl h.cursor_given h)
  clear_timer-IsOrdered cs (inr u) = inr (record {
    no_requests = u.no_requests;
    no_loop = u.no_loop;
    no_poll = refl;
    no_strays = u.no_strays;
    no_ticks = u.no_ticks;
  })

  leave-IsOrdered : (l : ℕ) (cs : ChannelState) → IsOrdered G cs → IsOrdered G (leave l cs)
  unfolding leave
  leave-IsOrdered l cs o =
      if-elim (IsOrdered G)
        (has_viewers (record cs { viewers = filter (λ m. not (m == l)) cs.viewers })) _ _
        (λ _. IsOrdered-kept cs _ refl refl refl refl refl refl o)
        (λ _. clear_timer-IsOrdered _ (IsOrdered-kept cs _ refl refl refl refl refl refl o))

  shut-IsOrdered : (cs : ChannelState) → IsOrdered G cs → IsOrdered G (shut cs)
  unfolding shut
  shut-IsOrdered cs o = clear_timer-IsOrdered _ (
      IsOrdered-kept cs (record cs { stopped = true; viewers = [] }) refl refl refl refl refl refl
        o)

  -- An answer or a timer of an untouched channel is none.
  idle-IsOrdered :
      (cs cs' : ChannelState)
      → (IsBegun G cs → IsBegun G cs')
      → (IsUntouched cs → IsUntouched cs')
      → IsOrdered G cs
      → IsOrdered G cs'
  idle-IsOrdered cs cs' f g (inl h) = inl (f h)
  idle-IsOrdered cs cs' f g (inr u) = inr (g u)

  step-IsOrdered :
      (o : Options) (now : Text) (s : ChannelStep) (cs : ChannelState)
      → OfStep (Speaks G) s
      → IsOrdered G cs
      → IsOrdered G (step o now s cs)
  unfolding step
  step-IsOrdered o now (joins l) cs known h = join-IsOrdered l cs h
  step-IsOrdered o now (leaves l) cs known h = leave-IsOrdered l cs h
  step-IsOrdered o now (records event) cs known h =
      Quiet-IsOrdered cs _ (record_event-Quiet now event cs) h
  step-IsOrdered o now (loop_answer answer) cs known h =
      idle-IsOrdered cs _ (loop_answered-IsBegun G o now answer cs known)
        (λ u. unfold loop_answered in rw (u.no_loop, loop_answered) u) h
  step-IsOrdered o now (tick_answer answer) cs known h =
      idle-IsOrdered cs _ (tick_answered-IsBegun G now answer cs)
        (λ u. unfold tick_answered in rw (u.no_ticks, tick_answered) u) h
  step-IsOrdered o now timer cs known h =
      idle-IsOrdered cs _ (timer_fires-IsBegun G o cs)
        (λ u. unfold timer_fires in rw (u.no_poll, timer_fires) u) h
  step-IsOrdered o now stray cs known h =
      idle-IsOrdered cs _ (stray_fires-IsBegun G o cs)
        (λ u. unfold stray_fires in rw (u.no_strays, stray_fires) u) h
  step-IsOrdered o now shuts cs known h = shut-IsOrdered cs h

-- The answer of this call gives the cursor, with an observation or with an event.
abbrev pub GivenBy : HubCall → Text → Type 0
GivenBy c cursor = elim c [
  | loop_answers id answer ↦ elim answer [
    | answered m ↦
        (string_at (codes "cursor") (record_at (codes "observation") m) ≡ some cursor)
        ⊎ (string_at (codes "next_cursor") m ≡ some cursor)
    | failed e ↦ ⊥
  ]
  | _ ↦ ⊥
]

-- The server gave this cursor in one of the calls.
abbrev pub GivenIn : List (Text × HubCall) → Text → Type 0
GivenIn [] cursor = ⊥
GivenIn ((now, c) ∷ calls) cursor = GivenBy c cursor ⊎ GivenIn calls cursor

answer-Speaks :
    (id : Text) (answer : Answer Members) (G : Text → Type 0)
    → ((cursor : Text) → GivenBy (loop_answers id answer) cursor → G cursor)
    → Speaks G answer
answer-Speaks id (answered m) G f = (λ cursor e. f cursor (inl e), λ cursor e. f cursor (inr e))
answer-Speaks id (failed e) G f = tt

call-Speaks :
    (c : HubCall) (G : Text → Type 0)
    → ((cursor : Text) → GivenBy c cursor → G cursor)
    → OfCall (Speaks G) c
call-Speaks c G f = OfCall-loop_answers (Speaks G) c (λ id answer e.
    answer-Speaks id answer G (subst (λ k. (cursor : Text) → GivenBy k cursor → G cursor) e f))

calls-Speaks :
    (some_calls calls : List (Text × HubCall))
    → ((cursor : Text) → GivenIn some_calls cursor → GivenIn calls cursor)
    → All (λ (p : Text × HubCall). OfCall (Speaks (GivenIn calls)) p.1) some_calls
calls-Speaks [] calls f = tt
calls-Speaks ((now, c) ∷ some_calls) calls f = (
  call-Speaks c (GivenIn calls) (λ cursor given. f cursor (inl given)),
  calls-Speaks some_calls calls (λ cursor given. f cursor (inr given)),
)

-- Whatever happens to a hub, in whatever order answers, timers, viewers and events come: the first
-- request about a channel is the one that observes it, so that nothing is read before the cursor is
-- asked for, and every wait goes on from a cursor that an answer of the server gave. A channel with no
-- such request was asked nothing and has no loop, timer or read under way.
pub run-new_hub-IsOrdered :
    (o : Options) (ring : RingOptions) (observed managers : ℕ) (calls : List (Text × HubCall))
    → All (IsOrdered (GivenIn calls)) (run calls (new_hub o ring observed managers)).channels
unfolding new_hub new_channel
run-new_hub-IsOrdered o ring observed managers calls =
    run-All-known (Speaks (GivenIn calls)) (IsOrdered (GivenIn calls))
      (λ r id. inr (record {
        no_requests = refl;
        no_loop = refl;
        no_poll = refl;
        no_strays = refl;
        no_ticks = refl;
      }))
      (step-IsOrdered (GivenIn calls)) calls (new_hub o ring observed managers)
      (calls-Speaks calls calls (λ cursor given. given)) tt

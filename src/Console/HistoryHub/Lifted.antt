-- ===== src/Console/HistoryHub/Lifted.antt =====
-- console/src/observer.ts: what every step of a channel keeps, a hub keeps for all its channels.
use agent_runtime_mcp.Base.{
  ℕ, map, Bool, true, false, ◌&&◌, List, [], ◌∷◌, Text, All, All-append, ◌≡◌, refl, Option-cases,
  inl, inr, if-elim, leb, length,
}
use agent_runtime_mcp.Console.Events.{ConsoleEvent}
use agent_runtime_mcp.Console.History.Ring.{RingOptions}
use agent_runtime_mcp.Console.HistoryHub.{Options, ChannelState, new_channel}
use agent_runtime_mcp.Console.HistoryHub.Loop.{
  ChannelStep, joins, leaves, records, loop_answer, tick_answer, timer, stray, shuts, step,
}
use agent_runtime_mcp.Console.Json.{Members}
use agent_runtime_mcp.Console.McpClient.Calls.{Answer}
use agent_runtime_mcp.Console.HistoryHub.Manager.{
  Hub, HubCall, snapshots, watches, unwatches, hears, loop_answers, tick_answers, fires,
  stray_fires, closes, find_channel, is_named, is_idle, evict_idle, with_room, add_channel, ensure,
  adjust, on_channel, may_watch, add_viewer, remove_viewer, event_channel, record_console_event,
  close, call, run,
}

-- What is known of the answers to the loop that a step or a call brings.
abbrev pub OfStep : (Answer Members → Type 0) → ChannelStep → Type 0
OfStep S s = elim s [ loop_answer answer ↦ S answer | _ ↦ Unit ]

abbrev pub OfCall : (Answer Members → Type 0) → HubCall → Type 0
OfCall S c = elim c [ loop_answers id answer ↦ S answer | _ ↦ Unit ]

module _ (S : Answer Members → Type 0) (P : ChannelState → Type 0)
    (P-new : (o : RingOptions) (id : Text) → P (new_channel o id))
    (P-step : (o : Options) (now : Text) (s : ChannelStep) (cs : ChannelState)
      → OfStep S s
      → P cs
      → P (step o now s cs)) where
  evict_idle-All : (channels : List ChannelState) → All P channels → All P (evict_idle channels)
  unfolding evict_idle
  evict_idle-All [] all = tt
  evict_idle-All (cs ∷ channels) all =
      if-elim (All P) (is_idle cs) channels _ (λ _. all.1)
        (λ _. (all.0, evict_idle-All channels all.1))

  with_room-All : (h : Hub) → All P h.channels → All P (with_room h)
  with_room-All h all =
      if-elim (All P) (leb h.max_managers (length h.channels)) _ _
        (λ _. evict_idle-All h.channels all) (λ _. all)

  ensure-All : (id : Text) (h : Hub) → All P h.channels → All P (ensure id h).0.channels
  unfolding ensure add_channel
  ensure-All id h all = elim (Option-cases (find_channel id h)) [
    | inl absent ↦
        rw (absent, ensure)
          (if-elim (λ (p : Hub × Bool). All P p.0.channels)
            (leb h.max_managers (length (with_room h))) _ _ (λ _. with_room-All h all)
            (λ _. All-append P (with_room h) _ (with_room-All h all) (P-new h.ring_options id, tt)))
    | inr (cs, found) ↦ rw (found, ensure) all
  ]

  adjust-All :
      (o : Options) (now : Text) (s : ChannelStep) (id : Text) (channels : List ChannelState)
      → OfStep S s
      → All P channels
      → All P (adjust (step o now s) id channels)
  unfolding adjust
  adjust-All o now s id [] known all = tt
  adjust-All o now s id (cs ∷ channels) known all =
      if-elim (All P) (is_named id cs) _ _ (λ _. (P-step o now s cs known all.0, all.1))
        (λ _. (all.0, adjust-All o now s id channels known all.1))

  map-All :
      (o : Options) (now : Text) (channels : List ChannelState)
      → All P channels
      → All P (map (step o now shuts) channels)
  map-All o now [] all = tt
  map-All o now (cs ∷ channels) all = (P-step o now shuts cs tt all.0, map-All o now channels all.1)

  on_channel-All :
      (now : Text) (id : Text) (s : ChannelStep) (h : Hub)
      → OfStep S s
      → All P h.channels
      → All P (on_channel now id s h).channels
  on_channel-All now id s h known all = adjust-All h.options now s id h.channels known all

  add_viewer-All :
      (now id : Text) (l : ℕ) (h : Hub)
      → All P h.channels
      → All P (add_viewer now id l h).0.channels
  unfolding add_viewer
  add_viewer-All now id l h all =
      let ensured = (ensure id h).0 in
      if-elim (λ (p : Hub × Bool). All P p.0.channels) ((ensure id h).1 && may_watch id ensured)
        (on_channel now id (joins l) ensured, true) (ensured, false)
        (λ _. on_channel-All now id (joins l) ensured tt (ensure-All id h all))
        (λ _. ensure-All id h all)

  record_console_event-All :
      (now : Text) (event : ConsoleEvent) (h : Hub)
      → All P h.channels
      → All P (record_console_event now event h).channels
  unfolding record_console_event
  record_console_event-All now event h all =
      let id = event_channel event in
      let ensured = (ensure id h).0 in
      if-elim (λ (h' : Hub). All P h'.channels) (ensure id h).1
        (on_channel now id (records event) ensured) ensured
        (λ _. on_channel-All now id (records event) ensured tt (ensure-All id h all))
        (λ _. ensure-All id h all)

  call-All :
      (now : Text) (c : HubCall) (h : Hub)
      → OfCall S c
      → All P h.channels
      → All P (call now c h).channels
  unfolding call remove_viewer close
  call-All now (snapshots id) h known all = ensure-All id h all
  call-All now (watches id l) h known all = add_viewer-All now id l h all
  call-All now (unwatches id l) h known all = adjust-All h.options now (leaves l) id _ tt all
  call-All now (hears event) h known all =
      if-elim (λ (h' : Hub). All P h'.channels) h.subscribed (record_console_event now event h) h
        (λ _. record_console_event-All now event h all) (λ _. all)
  call-All now (loop_answers id answer) h known all =
      adjust-All h.options now (loop_answer answer) id _ known all
  call-All now (tick_answers id answer) h known all =
      adjust-All h.options now (tick_answer answer) id _ tt all
  call-All now (fires id) h known all = adjust-All h.options now timer id _ tt all
  call-All now (stray_fires id) h known all = adjust-All h.options now stray id _ tt all
  call-All now closes h known all = map-All h.options now h.channels all

  pub run-All-known :
      (calls : List (Text × HubCall)) (h : Hub)
      → All (λ (p : Text × HubCall). OfCall S p.1) calls
      → All P h.channels
      → All P (run calls h).channels
  unfolding run
  run-All-known [] h known all = all
  run-All-known ((now, c) ∷ calls) h known all =
      run-All-known calls (call now c h) known.1 (call-All now c h known.0 all)

pub OfCall-loop_answers :
    (S : Answer Members → Type 0) (c : HubCall)
    → ((id : Text) (answer : Answer Members) → c ≡ loop_answers id answer → S answer)
    → OfCall S c
OfCall-loop_answers S (snapshots id) f = tt
OfCall-loop_answers S (watches id l) f = tt
OfCall-loop_answers S (unwatches id l) f = tt
OfCall-loop_answers S (hears event) f = tt
OfCall-loop_answers S (loop_answers id answer) f = f id answer refl
OfCall-loop_answers S (tick_answers id answer) f = tt
OfCall-loop_answers S (fires id) f = tt
OfCall-loop_answers S (stray_fires id) f = tt
OfCall-loop_answers S closes f = tt

-- Where nothing is known of the answers.
all_of :
    (calls : List (Text × HubCall)) → All (λ (p : Text × HubCall). OfCall (λ _. Unit) p.1) calls
all_of [] = tt
all_of ((now, c) ∷ calls) = (OfCall-loop_answers (λ _. Unit) c (λ id answer e. tt), all_of calls)

pub run-All :
    (P : ChannelState → Type 0) (P-new : (o : RingOptions) (id : Text) → P (new_channel o id))
    (P-step : (o : Options) (now : Text) (s : ChannelStep) (cs : ChannelState)
      → P cs
      → P (step o now s cs))
    (calls : List (Text × HubCall)) (h : Hub)
    → All P h.channels
    → All P (run calls h).channels
run-All P P-new P-step calls h all =
    run-All-known (λ _. Unit) P P-new (λ o now s cs _. P-step o now s cs) calls h (all_of calls) all

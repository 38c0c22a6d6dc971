-- ===== src/Console/HistoryHub/Capacity.antt =====
-- console/src/observer.ts: how much a hub holds.
use agent_runtime_mcp.Base.{
  All-map, ℕ, ◌≤◌, Bool, true, false, not, ◌&&◌, ◌||◌, some, List, [], ◌∷◌, ◌++◌, map, Text, ◌≡◌,
  refl, All, find, length, length-append, length-map, arith, Bool-cases, Option-cases, inl, inr,
  if-elim, leb,
}
use agent_runtime_mcp.Console.Events.{ConsoleEvent}
use agent_runtime_mcp.Console.History.Ring.{RingOptions}
use agent_runtime_mcp.Console.HistoryHub.{Options, ChannelState, new_channel, has_viewers}
use agent_runtime_mcp.Console.HistoryHub.Lifted.{run-All}
use agent_runtime_mcp.Console.HistoryHub.Loop.{
  ChannelStep, joins, leaves, records, loop_answer, tick_answer, timer, stray, shuts, step,
}
use agent_runtime_mcp.Console.HistoryHub.Manager.{
  Hub, HubCall, snapshots, watches, unwatches, hears, loop_answers, tick_answers, fires,
  stray_fires, closes, new_hub, find_channel, is_named, evict_idle, with_room, add_channel, ensure,
  observed_count, adjust, on_channel, may_watch, add_viewer, remove_viewer, event_channel,
  record_console_event, close, call, run,
}
use agent_runtime_mcp.Console.HistoryHub.Watched.{
  watched, HasGoodRing, IsQuiet, IsSound, new_channel-IsSound, step-IsSound, step-watched,
  length-evict_idle, observed_count-evict_idle, length-adjust, observed_count-adjust,
  observed_count-adjust_found, observed_count-append-new,
}

module _ (observed managers : ℕ) where
  -- A hub with these two limits that keeps to them.
  pub record IsWithin (h : Hub) : Type 0 where
    pub managers_eq : h.max_managers ≡ managers
    pub observed_eq : h.max_observed ≡ observed
    pub few : length h.channels ≤ managers
    pub few_watched : observed_count h.channels ≤ observed

  with_room-le : (h : Hub) → IsWithin h → length (with_room h) ≤ managers
  with_room-le h w =
      if-elim (λ (channels : List ChannelState). length channels ≤ managers)
        (leb h.max_managers (length h.channels)) (evict_idle h.channels) h.channels
        (λ _. omega (arith, length-evict_idle h.channels, w.few)) (λ _. w.few)

  with_room-watched : (h : Hub) → IsWithin h → observed_count (with_room h) ≤ observed
  with_room-watched h w =
      if-elim (λ (channels : List ChannelState). observed_count channels ≤ observed)
        (leb h.max_managers (length h.channels)) (evict_idle h.channels) h.channels
        (λ _. omega (arith, observed_count-evict_idle h.channels, w.few_watched))
        (λ _. w.few_watched)

  add_channel-IsWithin : (id : Text) (h : Hub) → IsWithin h → IsWithin (add_channel id h).0
  unfolding add_channel
  add_channel-IsWithin id h w =
      if-elim (λ (p : Hub × Bool). IsWithin p.0) (leb h.max_managers (length (with_room h)))
        (record h { channels = with_room h }, false)
        (record h { channels = with_room h ++ new_channel h.ring_options id ∷ [] }, true)
        (λ _. record {
          managers_eq = w.managers_eq;
          observed_eq = w.observed_eq;
          few = with_room-le h w;
          few_watched = with_room-watched h w;
        })
        (λ room. record {
          managers_eq = w.managers_eq;
          observed_eq = w.observed_eq;
          few = ground (
            arith,
            room,
            w.managers_eq,
            length-append (with_room h) (new_channel h.ring_options id ∷ []),
          );
          few_watched = omega (
            arith,
            with_room-watched h w,
            observed_count-append-new h.ring_options id (with_room h),
          );
        })

  ensure-IsWithin : (id : Text) (h : Hub) → IsWithin h → IsWithin (ensure id h).0
  unfolding ensure
  ensure-IsWithin id h w = elim (Option-cases (find_channel id h)) [
    | inl absent ↦ rw (absent, ensure) (add_channel-IsWithin id h w)
    | inr (cs, found) ↦ rw (found, ensure) w
  ]

  on_channel-IsWithin :
      (now id : Text) (s : ChannelStep) (h : Hub)
      → IsQuiet s
      → IsWithin h
      → IsWithin (on_channel now id s h)
  on_channel-IsWithin now id s h q w = record {
    managers_eq = w.managers_eq;
    observed_eq = w.observed_eq;
    few = rw (length-adjust (step h.options now s) id h.channels) w.few;
    few_watched = omega (
      arith,
      w.few_watched,
      observed_count-adjust (step h.options now s) id h.channels
          (λ cs. step-watched h.options now s cs q),
    );
  }

  joined-le :
      (now id : Text) (l : ℕ) (h : Hub) (cs : ChannelState)
      → find (is_named id) h.channels ≡ some cs
      → (has_viewers cs || not (leb h.max_observed (observed_count h.channels))) ≡ true
      → IsWithin h
      → observed_count (adjust (step h.options now (joins l)) id h.channels) ≤ observed
  joined-le now id l h cs found may w =
      let more =
        observed_count-adjust_found (step h.options now (joins l)) id h.channels cs found in
      elim (Bool-cases (has_viewers cs)) [
        | inl is_watched ↦
            let one : watched cs ≡ 1 = rw is_watched refl in omega (arith, more, one, w.few_watched)
        | inr unwatched ↦
            let room = rw (unwatched) at may in ground (arith, more, room, w.observed_eq)
      ]

  -- A viewer joins a channel that is watched already, or there is one more watched channel.
  joins-IsWithin :
      (now id : Text) (l : ℕ) (h : Hub)
      → may_watch id h ≡ true
      → IsWithin h
      → IsWithin (on_channel now id (joins l) h)
  unfolding find_channel
  joins-IsWithin now id l h may w = elim (Option-cases (find_channel id h)) [
    | inl absent ↦ absurd (cc (rw (absent, may_watch) at may))
    | inr (cs, found) ↦ record {
      managers_eq = w.managers_eq;
      observed_eq = w.observed_eq;
      few = rw (length-adjust (step h.options now (joins l)) id h.channels) w.few;
      few_watched = joined-le now id l h cs found (rw (found, may_watch) at may) w;
    }
  ]

  add_viewer-IsWithin :
      (now id : Text) (l : ℕ) (h : Hub) → IsWithin h → IsWithin (add_viewer now id l h).0
  unfolding add_viewer
  add_viewer-IsWithin now id l h w =
      let ensured = (ensure id h).0 in
      if-elim (λ (p : Hub × Bool). IsWithin p.0) ((ensure id h).1 && may_watch id ensured)
        (on_channel now id (joins l) ensured, true) (ensured, false)
        (λ both. joins-IsWithin now id l ensured (ground (arith, both)) (ensure-IsWithin id h w))
        (λ _. ensure-IsWithin id h w)

  record_console_event-IsWithin :
      (now : Text) (event : ConsoleEvent) (h : Hub)
      → IsWithin h
      → IsWithin (record_console_event now event h)
  unfolding record_console_event
  record_console_event-IsWithin now event h w =
      let id = event_channel event in
      let ensured = (ensure id h).0 in
      if-elim IsWithin (ensure id h).1 (on_channel now id (records event) ensured) ensured
        (λ _. on_channel-IsWithin now id (records event) ensured tt (ensure-IsWithin id h w))
        (λ _. ensure-IsWithin id h w)

  observed_count-map :
      (o : Options) (now : Text) (channels : List ChannelState)
      → observed_count (map (step o now shuts) channels) ≤ observed_count channels
  unfolding observed_count
  observed_count-map o now [] = omega arith
  observed_count-map o now (cs ∷ channels) =
      omega (arith, step-watched o now shuts cs tt, observed_count-map o now channels)

  call-IsWithin : (now : Text) (c : HubCall) (h : Hub) → IsWithin h → IsWithin (call now c h)
  unfolding call remove_viewer close
  call-IsWithin now (snapshots id) h w = ensure-IsWithin id h w
  call-IsWithin now (watches id l) h w = add_viewer-IsWithin now id l h w
  call-IsWithin now (unwatches id l) h w = on_channel-IsWithin now id (leaves l) h tt w
  call-IsWithin now (hears event) h w =
      if-elim IsWithin h.subscribed (record_console_event now event h) h
        (λ _. record_console_event-IsWithin now event h w) (λ _. w)
  call-IsWithin now (loop_answers id answer) h w =
      on_channel-IsWithin now id (loop_answer answer) h tt w
  call-IsWithin now (tick_answers id answer) h w =
      on_channel-IsWithin now id (tick_answer answer) h tt w
  call-IsWithin now (fires id) h w = on_channel-IsWithin now id timer h tt w
  call-IsWithin now (stray_fires id) h w = on_channel-IsWithin now id stray h tt w
  call-IsWithin now closes h w = record {
    managers_eq = w.managers_eq;
    observed_eq = w.observed_eq;
    few = rw (length-map (step h.options now shuts) h.channels) w.few;
    few_watched = omega (arith, w.few_watched, observed_count-map h.options now h.channels);
  }

  run-IsWithin : (calls : List (Text × HubCall)) (h : Hub) → IsWithin h → IsWithin (run calls h)
  unfolding run
  run-IsWithin [] h w = w
  run-IsWithin ((now, c) ∷ calls) h w = run-IsWithin calls (call now c h) (call-IsWithin now c h w)

-- Whatever happens to a hub, it holds at most `managers` channels, at most `observed` of them have
-- viewers, and the totals of the ring of each are those of its entries and within both ceilings, the ids of
-- the entries going upwards.
pub run-new_hub-IsWithin :
    (o : Options) (ring : RingOptions) (observed managers : ℕ) (calls : List (Text × HubCall))
    → IsWithin observed managers (run calls (new_hub o ring observed managers))
      × All HasGoodRing (run calls (new_hub o ring observed managers)).channels
unfolding new_hub observed_count
run-new_hub-IsWithin o ring observed managers calls = (
  run-IsWithin observed managers calls (new_hub o ring observed managers) (record {
    managers_eq = refl;
    observed_eq = refl;
    few = omega arith;
    few_watched = omega arith;
  }),
  All-map (run calls (new_hub o ring observed managers)).channels (λ cs sound. sound.0)
      (run-All IsSound new_channel-IsSound step-IsSound calls (new_hub o ring observed managers)
        tt),
)

-- ===== src/Console/HistoryHub/Watched.antt =====
-- console/src/observer.ts: how many channels are watched, before and behind each step.
use agent_runtime_mcp.Base.{
  ℕ, suc, ◌+◌, ◌≤◌, true, false, not, ◌||◌, some, List, [], ◌∷◌, ◌++◌, Text, ◌≡◌, refl, ap,
  some-inj, find, sum_of, sum_of-append, length, arith, Bool-cases, inl, inr, if-elim,
  if◌then◌else◌, filter, ◌==◌,
}
use agent_runtime_mcp.Console.History.Ring.{RingOptions, new_ring}
use agent_runtime_mcp.Console.History.Ring.Ids.{IsGood, new_ring-IsGood}
use agent_runtime_mcp.Console.HistoryHub.OnlyCurrent.{SoundAt}
use agent_runtime_mcp.Console.HistoryHub.{
  Options, ChannelState, new_channel, has_viewers, is_loop_active, has_timer,
}
use agent_runtime_mcp.Console.HistoryHub.Keeps.{
  Keeps, Quiet-Keeps, loop_answered-Keeps, timer_fires-Keeps, stray_fires-Keeps,
  tick_answered-Keeps, start_loop-Keeps,
}
use agent_runtime_mcp.Console.HistoryHub.Loop.{
  ChannelStep, joins, leaves, records, loop_answer, tick_answer, timer, stray, shuts, step, join,
  leave, shut,
}
use agent_runtime_mcp.Console.HistoryHub.Manager.{
  is_named, is_idle, evict_idle, observed_count, adjust,
}
use agent_runtime_mcp.Console.HistoryHub.Quiet.{record_event-Quiet}

abbrev pub watched : ChannelState → ℕ
watched cs = if has_viewers cs then 1 else 0

abbrev pub HasGoodRing : ChannelState → Type 0
HasGoodRing cs = IsGood cs.ring

-- Besides, every block of output is closed but the current one.
abbrev pub IsSound : ChannelState → Type 0
IsSound cs = SoundAt cs.current_block_id cs.ring

pub new_channel-IsSound : (options : RingOptions) (id : Text) → IsSound (new_channel options id)
unfolding new_channel new_ring
new_channel-IsSound options id = (new_ring-IsGood options, tt)

join-IsSound : (l : ℕ) (cs : ChannelState) → IsSound cs → IsSound (join l cs)
unfolding join
join-IsSound l cs b =
    if-elim IsSound (is_loop_active cs || has_timer cs) _ _ (λ _. b)
      (λ _. (start_loop-Keeps _).ring_good b)

leave-IsSound : (l : ℕ) (cs : ChannelState) → IsSound cs → IsSound (leave l cs)
unfolding leave
leave-IsSound l cs b =
    if-elim IsSound (has_viewers (record cs { viewers = filter (λ m. not (m == l)) cs.viewers })) _
      _ (λ _. b) (λ _. b)

pub step-IsSound :
    (o : Options) (now : Text) (s : ChannelStep) (cs : ChannelState)
    → IsSound cs
    → IsSound (step o now s cs)
unfolding step shut
step-IsSound o now (joins l) cs b = join-IsSound l cs b
step-IsSound o now (leaves l) cs b = leave-IsSound l cs b
step-IsSound o now (records event) cs b = (record_event-Quiet now event cs).ring_good b
step-IsSound o now (loop_answer answer) cs b = (loop_answered-Keeps o now answer cs).ring_good b
step-IsSound o now (tick_answer answer) cs b = (tick_answered-Keeps now answer cs).ring_good b
step-IsSound o now timer cs b = (timer_fires-Keeps o cs).ring_good b
step-IsSound o now stray cs b = (stray_fires-Keeps o cs).ring_good b
step-IsSound o now shuts cs b = b

watched-Keeps : (cs cs' : ChannelState) → Keeps cs cs' → watched cs' ≤ watched cs
watched-Keeps cs cs' k = rw k.same_viewers (omega arith)

pub watched_le : (cs : ChannelState) → watched cs ≤ 1
watched_le cs = if-elim (λ n. n ≤ 1) (has_viewers cs) 1 0 (λ _. omega arith) (λ _. omega arith)

watched-filter :
    (l : ℕ) (vs : List ℕ)
    → (if elim (filter (λ m. not (m == l)) vs) [ [] ↦ false | k ∷ ks ↦ true ] then 1 else 0)
      ≤ (if elim vs [ [] ↦ false | k ∷ ks ↦ true ] then 1 else 0)
watched-filter l [] = omega arith
watched-filter l (v ∷ vs) =
    if-elim (λ n. n ≤ 1) (elim (filter (λ m. not (m == l)) (v ∷ vs)) [ [] ↦ false | k ∷ ks ↦ true ])
      1 0 (λ _. omega arith) (λ _. omega arith)

leave-watched : (l : ℕ) (cs : ChannelState) → watched (leave l cs) ≤ watched cs
unfolding leave
leave-watched l cs =
    let left : ChannelState = record cs { viewers = filter (λ m. not (m == l)) cs.viewers } in
    if-elim (λ (cs' : ChannelState). watched cs' ≤ watched cs) (has_viewers left) left _
      (λ _. watched-filter l cs.viewers) (λ _. watched-filter l cs.viewers)

-- The steps other than a new viewer.
abbrev pub IsQuiet : ChannelStep → Type 0
IsQuiet s = elim s [ joins l ↦ ⊥ | _ ↦ Unit ]

pub step-watched :
    (o : Options) (now : Text) (s : ChannelStep) (cs : ChannelState)
    → IsQuiet s
    → watched (step o now s cs) ≤ watched cs
unfolding step shut
step-watched o now (joins l) cs q = absurd q
step-watched o now (leaves l) cs q = leave-watched l cs
step-watched o now (records event) cs q =
    watched-Keeps cs _ (Quiet-Keeps cs _ (record_event-Quiet now event cs))
step-watched o now (loop_answer answer) cs q =
    watched-Keeps cs _ (loop_answered-Keeps o now answer cs)
step-watched o now (tick_answer answer) cs q =
    watched-Keeps cs _ (tick_answered-Keeps now answer cs)
step-watched o now timer cs q = watched-Keeps cs _ (timer_fires-Keeps o cs)
step-watched o now stray cs q = watched-Keeps cs _ (stray_fires-Keeps o cs)
step-watched o now shuts cs q = omega arith

pub length-evict_idle :
    (channels : List ChannelState) → length (evict_idle channels) ≤ length channels
unfolding evict_idle
length-evict_idle [] = omega arith
length-evict_idle (cs ∷ channels) =
    if-elim (λ (rest : List ChannelState). length rest ≤ suc (length channels)) (is_idle cs)
      channels (cs ∷ evict_idle channels) (λ _. omega arith)
      (λ _. omega (arith, length-evict_idle channels))

pub observed_count-evict_idle :
    (channels : List ChannelState) → observed_count (evict_idle channels) ≤ observed_count channels
unfolding evict_idle observed_count
observed_count-evict_idle [] = omega arith
observed_count-evict_idle (cs ∷ channels) =
    if-elim (λ (rest : List ChannelState). sum_of watched rest ≤ sum_of watched (cs ∷ channels))
      (is_idle cs) channels (cs ∷ evict_idle channels) (λ _. omega arith)
      (λ _. omega (arith, observed_count-evict_idle channels))

pub length-adjust :
    (f : ChannelState → ChannelState) (id : Text) (channels : List ChannelState)
    → length (adjust f id channels) ≡ length channels
unfolding adjust
length-adjust f id [] = refl
length-adjust f id (cs ∷ channels) =
    if-elim (λ (rest : List ChannelState). length rest ≡ suc (length channels)) (is_named id cs)
      (f cs ∷ channels) (cs ∷ adjust f id channels) (λ _. refl)
      (λ _. omega (arith, length-adjust f id channels))

pub observed_count-adjust :
    (f : ChannelState → ChannelState) (id : Text) (channels : List ChannelState)
    → ((cs : ChannelState) → watched (f cs) ≤ watched cs)
    → observed_count (adjust f id channels) ≤ observed_count channels
unfolding adjust observed_count
observed_count-adjust f id [] h = omega arith
observed_count-adjust f id (cs ∷ channels) h =
    if-elim (λ (rest : List ChannelState). sum_of watched rest ≤ sum_of watched (cs ∷ channels))
      (is_named id cs) (f cs ∷ channels) (cs ∷ adjust f id channels) (λ _. omega (arith, h cs))
      (λ _. omega (arith, observed_count-adjust f id channels h))

pub observed_count-adjust_found :
    (f : ChannelState → ChannelState) (id : Text) (channels : List ChannelState)
    (found : ChannelState)
    → find (is_named id) channels ≡ some found
    → (observed_count (adjust f id channels) + watched found ≤ observed_count channels + 1)
unfolding adjust observed_count
observed_count-adjust_found f id [] found h = absurd (cc h)
observed_count-adjust_found f id (cs ∷ channels) found h = elim (Bool-cases (is_named id cs)) [
  | inl this ↦
      let e : cs ≡ found = some-inj (rw (this, find) at h) in
      rw (this, adjust, observed_count) (omega (arith, ap watched e, watched_le (f cs)))
  | inr other ↦
      rw (other, adjust, observed_count)
        (omega (arith, observed_count-adjust_found f id channels found (rw (other, find) at h)))
]

pub observed_count-append-new :
    (options : RingOptions) (id : Text) (channels : List ChannelState)
    → observed_count (channels ++ new_channel options id ∷ []) ≡ observed_count channels
unfolding observed_count new_channel
observed_count-append-new options id channels =
    omega (arith, sum_of-append watched channels (new_channel options id ∷ []))

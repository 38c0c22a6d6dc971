-- ===== src/Runtime/Observation.antt =====
-- src/observation.ts: an observer of one channel with its samples, and the checks of a cursor. Times
-- are those of the monotonic clock, in whole milliseconds. Timers are left out, of the waiters only their
-- number is kept, and a sample is one step, from its start to its end.
pub mod Complete
pub mod Cursors
use agent_runtime_mcp.Base.{
  ℕ, zero, suc, ◌+◌, ◌-◌, ◌*◌, min, Bool, true, false, not, ◌&&◌, ◌||◌, Option, none, some, List,
  [], ◌∷◌, ◌++◌, map, Text, text_eq, ltb, leb, length, filter, find, is_some, or_default,
  if◌then◌else◌,
}
use agent_runtime_mcp.Runtime.Errors.{
  ChannelErrorCode, cursor_invalid, cursor_expired, observation_gap, channel_instance_changed,
  waiter_limit, resource_exhausted, backend_unavailable, plain, Result, ok, thrown, require, ◌>>◌,
  ◌>>=◌,
}

abbrev pub lease_ms : ℕ
lease_ms = 5 * 60000

abbrev pub lifetime_ms : ℕ
lifetime_ms = 15 * 60000

abbrev pub max_history : ℕ
max_history = 1536

abbrev pub max_history_bytes : ℕ
max_history_bytes = 256 * 1024

abbrev pub max_sample_gap_ms : ℕ
max_sample_gap_ms = 1000

abbrev pub max_tokens : ℕ
max_tokens = 4096

abbrev pub max_waiters_global : ℕ
max_waiters_global = 16

abbrev pub max_waiters_per_channel : ℕ
max_waiters_per_channel = 2

pub record Event : Type 0 where
  pub seq : ℕ
  pub at : ℕ
  pub wall : Text
  pub sample : ℕ

pub record Observer : Type 0 where
  pub id : Text
  pub channel_id : Text
  pub instance_id : Text
  pub created : ℕ
  pub valid_until : ℕ
  pub identity : Text
  pub snapshot : Text
  pub seq : ℕ
  pub evicted : ℕ
  pub events : List Event
  pub waiters : ℕ
  pub closed : Bool
  pub failure : Option ChannelErrorCode
  pub last_sample_at : ℕ
  pub sample_count : ℕ

pub record Token : Type 0 where
  pub observer : Text
  pub channel_id : Text
  pub instance_id : Text
  pub seq : ℕ
  pub exp : ℕ

-- What the sampler gives.
pub data Sampled : Type 0 where
  sampled : (present : Bool) (identity snapshot : Text) → Sampled
  sample_failed : ChannelErrorCode → Sampled

unfoldable pub new_observer :
    (id channel_id instance_id : Text) (created : ℕ) (identity snapshot : Text) → Observer
new_observer id channel_id instance_id created identity snapshot = record {
  id = id;
  channel_id = channel_id;
  instance_id = instance_id;
  created = created;
  valid_until = created + lease_ms;
  identity = identity;
  snapshot = snapshot;
  seq = 0;
  evicted = 0;
  events = [];
  waiters = 0;
  closed = false;
  failure = none;
  last_sample_at = created;
  sample_count = 1;
}

abbrev pub fail : ChannelErrorCode → Observer → Observer
fail code o = record o { failure = some code }

abbrev pub is_gap : (now earlier : ℕ) → Bool
is_gap now earlier = ltb max_sample_gap_ms (now - earlier)

-- `json_bytes` is the size of the events as JSON.
module _ (json_bytes : List Event → ℕ) where
  abbrev pub is_over : List Event → Bool
  is_over es = ltb max_history (length es) || ltb max_history_bytes (json_bytes es)

  -- The loop of `trimHistory`, over the events.
  unfoldable pub trim_from : List Event → Observer → Observer
  trim_from [] o = record o { events = [] }
  trim_from (e ∷ es) o =
      let rest = trim_from es (record o { evicted = e.seq }) in
      if is_over (e ∷ es) then rest else record o { events = e ∷ es }

  unfoldable pub trim_history : Observer → Observer
  trim_history o = trim_from o.events o

  abbrev pub push_event : (at : ℕ) (wall snapshot : Text) → Observer → Observer
  push_event at wall snapshot o = record o {
    snapshot = snapshot;
    seq = o.seq + 1;
    events =
        o.events ++ record { seq = o.seq + 1; at = at; wall = wall; sample = o.sample_count } ∷ [];
  }

  -- A sample in time: the channel is gone, is another one, has changed, or has not.
  unfoldable pub take_sample :
      (finished : ℕ) (wall : Text) (present : Bool) (identity snapshot : Text) → Observer → Observer
  take_sample finished wall present identity snapshot o =
      let counted : Observer = record o {
        last_sample_at = finished;
        sample_count = o.sample_count + 1;
      } in
      if not present
      then record counted { closed = true }
      else if not (text_eq identity o.identity)
      then fail channel_instance_changed counted
      else if text_eq snapshot o.snapshot
      then counted
      else trim_history (push_event finished wall snapshot counted)

  abbrev pub finish_sample : (started finished : ℕ) (wall : Text) → Sampled → Observer → Observer
  finish_sample started finished wall (sample_failed code) o = fail code o
  finish_sample started finished wall (sampled present identity snapshot) o =
      if is_gap finished started || is_gap finished o.last_sample_at
      then fail observation_gap o
      else take_sample finished wall present identity snapshot o

  -- `sample`
  unfoldable pub run_sample : (started finished : ℕ) (wall : Text) → Sampled → Observer → Observer
  run_sample started finished wall s o =
      if leb o.valid_until started
      then fail cursor_expired o
      else if is_gap started o.last_sample_at
      then fail observation_gap o
      else finish_sample started finished wall s o

  -- `scheduleSample`, where no sample of this observer is under way and one may start.
  unfoldable pub schedule_sample :
      (started finished : ℕ) (wall : Text) → Sampled → Observer → Observer
  schedule_sample started finished wall s o =
      if o.closed || is_some o.failure
      then o
      else if is_gap started o.last_sample_at
      then fail observation_gap o
      else run_sample started finished wall s o

abbrev pub has_expired : Option ChannelErrorCode → Bool
has_expired failure = elim failure [
  | none ↦ false
  | some code ↦ elim code [ cursor_expired ↦ true | _ ↦ false ]
]

unfoldable pub validate_token : (now : ℕ) → Observer → Token → Result (Unit {0})
validate_token now o t = do
  require (not (ltb t.exp now || (ltb o.valid_until now || has_expired o.failure)))
      (plain cursor_expired)
  require (text_eq t.instance_id o.instance_id) (plain channel_instance_changed)
  require (not (ltb t.seq o.evicted)) (plain observation_gap)

-- `observer.events.filter((e) => e.seq > token.seq)`
abbrev pub events_after : ℕ → List Event → List Event
events_after seq = filter (λ e. ltb seq e.seq)

-- The lease of an observer that is still good: `observe`, its first branch.
unfoldable pub renew : (now : ℕ) → Observer → Option Observer
renew now o =
    if ltb now o.valid_until && (not o.closed && not (is_some o.failure))
    then some (record o { valid_until = min (now + lease_ms) (o.created + lifetime_ms) })
    else none

-- What happens to an observer: a sample is due, or its lease is renewed.
pub data Step : Type 0 where
  sample_due : (started finished : ℕ) (wall : Text) → Sampled → Step
  renewed : (now : ℕ) → Step

module _ (json_bytes : List Event → ℕ) where
  unfoldable pub take_step : Step → Observer → Observer
  take_step (sample_due started finished wall s) o =
      schedule_sample json_bytes started finished wall s o
  take_step (renewed now) o = or_default (renew now o) o

  unfoldable pub take_steps : List Step → Observer → Observer
  take_steps [] o = o
  take_steps (s ∷ ss) o = take_steps ss (take_step s o)

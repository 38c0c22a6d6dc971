-- ===== src/Runtime/Observation/Complete.antt =====
-- src/observation.ts: an accepted cursor has missed no event.
use agent_runtime_mcp.Base.{
  ℕ, zero, suc, ◌+◌, ◌-◌, ◌≤◌, Bool, true, false, not, ◌||◌, ◌&&◌, List, [], ◌∷◌, ◌++◌, map, Text,
  text_eq, ltb, leb, ltb→lt, ltb→ge, ◌<◌, is_some, or_default, ◌≡◌, refl, subst, ◌∙◌, ap, arith,
  Bool-cases, inl, inr, if-elim,
}
use agent_runtime_mcp.Runtime.Errors.{ChannelError, ok, require, require-eq-ok}
use agent_runtime_mcp.Runtime.Observation.{
  Event, Observer, Token, Sampled, sampled, sample_failed, new_observer, is_gap, is_over, trim_from,
  trim_history, push_event, take_sample, run_sample, schedule_sample, has_expired, validate_token,
  events_after, renew, Step, sample_due, renewed, take_step, take_steps,
}

-- The numbers go up by one from `k` to `n`.
abbrev pub Chain : ℕ → List Event → ℕ → Type 0
Chain k [] n = k ≡ n
Chain k (e ∷ es) n = (e.seq ≡ suc k) × Chain (suc k) es n

-- The kept events are those behind the evicted ones, up to the last.
abbrev pub IsContiguous : Observer → Type 0
IsContiguous o = Chain o.evicted o.events o.seq

Chain-append :
    (k : ℕ) (es : List Event) (n : ℕ) (e : Event)
    → e.seq ≡ n + 1
    → Chain k es n
    → Chain k (es ++ e ∷ []) (n + 1)
Chain-append k [] n e same c = (ground (arith, same, c), ground (arith, c))
Chain-append k (x ∷ es) n e same (first, c) = (first, Chain-append (suc k) es n e same c)

Chain-le : (k : ℕ) (es : List Event) (n : ℕ) → Chain k es n → k ≤ n
Chain-le k [] n c = ground (arith, c)
Chain-le k (e ∷ es) n (first, c) = omega (arith, Chain-le (suc k) es n c)

-- The numbers behind `k`, `d` of them.
abbrev pub count_up : (k d : ℕ) → List ℕ
count_up k zero = []
count_up k (suc d) = suc k ∷ count_up (suc k) d

abbrev pub seqs : List Event → List ℕ
seqs = map (λ (e : Event). e.seq)

-- An event with a higher number is kept, any other is not.
events_after-kept :
    (s : ℕ) (e : Event) (es : List Event)
    → s < e.seq
    → events_after s (e ∷ es) ≡ e ∷ events_after s es
events_after-kept s e es l = ground (arith, l)

events_after-left_out :
    (s : ℕ) (e : Event) (es : List Event) → e.seq ≤ s → events_after s (e ∷ es) ≡ events_after s es
events_after-left_out s e es l = ground (arith, l)

cons_eq : {a b : ℕ} {x y : List ℕ} → a ≡ b → x ≡ y → a ∷ x ≡ b ∷ y
cons_eq e f = cc (e, f)

-- A cursor from before the kept events gets them all.
seqs-events_after :
    (k : ℕ) (es : List Event) (d s : ℕ)
    → s ≤ k
    → Chain k es (k + d)
    → seqs (events_after s es) ≡ count_up k d
seqs-events_after k [] zero s l c = refl
seqs-events_after k [] (suc d) s l c = absurd (omega (arith, c))
seqs-events_after k (e ∷ es) zero s l (first, c) =
    absurd (omega (arith, Chain-le (suc k) es (k + 0) c))
seqs-events_after k (e ∷ es) (suc d) s l (first, c) =
    ap seqs (events_after-kept s e es (omega (arith, l, first)))
    ∙ cons_eq first (
        seqs-events_after (suc k) es d s (omega (arith, l))
          (subst (λ n. Chain (suc k) es n) (omega arith) c))

seqs-at :
    (k s d : ℕ) (es : List Event)
    → k ≡ s
    → Chain k es (s + d)
    → seqs (events_after s es) ≡ count_up s d
seqs-at k s d es same c =
    seqs-events_after s es d s (omega arith) (subst (λ j. Chain j es (s + d)) same c)

-- A cursor within the kept events gets those behind it.
seqs-events_after-within :
    (k : ℕ) (es : List Event) (s d : ℕ)
    → k ≤ s
    → Chain k es (s + d)
    → seqs (events_after s es) ≡ count_up s d
seqs-events_after-within k [] s zero l c = refl
seqs-events_after-within k [] s (suc d) l c = absurd (omega (arith, c, l))
seqs-events_after-within k (e ∷ es) s d l (first, c) = elim (Bool-cases (ltb k s)) [
  | inl below ↦
      ap seqs (events_after-left_out s e es (omega (arith, ltb→lt k s below, first)))
      ∙ seqs-events_after-within (suc k) es s d (omega (arith, ltb→lt k s below)) c
  | inr same ↦ seqs-at k s d (e ∷ es) (omega (arith, ltb→ge k s same, l)) (first, c)
]

module _ (json_bytes : List Event → ℕ) where
  trim_from-IsContiguous :
      (es : List Event) (o : Observer)
      → Chain o.evicted es o.seq
      → IsContiguous (trim_from json_bytes es o)
  unfolding trim_from
  trim_from-IsContiguous [] o c = c
  trim_from-IsContiguous (e ∷ es) o (first, c) =
      if-elim IsContiguous (is_over json_bytes (e ∷ es)) _ _
        (λ _. trim_from-IsContiguous es (record o { evicted = e.seq }) (rw first c))
        (λ _. (first, c))

  trim_history-IsContiguous :
      (o : Observer) → IsContiguous o → IsContiguous (trim_history json_bytes o)
  unfolding trim_history
  trim_history-IsContiguous o c = trim_from-IsContiguous o.events o c

  push_event-IsContiguous :
      (at : ℕ) (wall snapshot : Text) (o : Observer)
      → IsContiguous o
      → IsContiguous (push_event json_bytes at wall snapshot o)
  push_event-IsContiguous at wall snapshot o c = Chain-append o.evicted o.events o.seq _ refl c

  take_sample-IsContiguous :
      (finished : ℕ) (wall : Text) (present : Bool) (identity snapshot : Text) (o : Observer)
      → IsContiguous o
      → IsContiguous (take_sample json_bytes finished wall present identity snapshot o)
  unfolding take_sample
  take_sample-IsContiguous finished wall present identity snapshot o c =
      if-elim IsContiguous (not present) _ _ (λ _. c)
        (λ _.
          if-elim IsContiguous (not (text_eq identity o.identity)) _ _ (λ _. c)
            (λ _.
              if-elim IsContiguous (text_eq snapshot o.snapshot) _ _ (λ _. c)
                (λ _. trim_history-IsContiguous _ (
                  push_event-IsContiguous finished wall snapshot
                    (record o { last_sample_at = finished; sample_count = o.sample_count + 1 })
                    c))))

  run_sample-IsContiguous :
      (started finished : ℕ) (wall : Text) (s : Sampled) (o : Observer)
      → IsContiguous o
      → IsContiguous (run_sample json_bytes started finished wall s o)
  unfolding run_sample
  run_sample-IsContiguous started finished wall (sample_failed code) o c =
      if-elim IsContiguous (leb o.valid_until started) _ _ (λ _. c)
        (λ _. if-elim IsContiguous (is_gap started o.last_sample_at) _ _ (λ _. c) (λ _. c))
  run_sample-IsContiguous started finished wall (sampled present identity snapshot) o c =
      if-elim IsContiguous (leb o.valid_until started) _ _ (λ _. c)
        (λ _.
          if-elim IsContiguous (is_gap started o.last_sample_at) _ _ (λ _. c)
            (λ _.
              if-elim IsContiguous (is_gap finished started || is_gap finished o.last_sample_at) _ _
                (λ _. c)
                (λ _. take_sample-IsContiguous finished wall present identity snapshot o c)))

  schedule_sample-IsContiguous :
      (started finished : ℕ) (wall : Text) (s : Sampled) (o : Observer)
      → IsContiguous o
      → IsContiguous (schedule_sample json_bytes started finished wall s o)
  unfolding schedule_sample
  schedule_sample-IsContiguous started finished wall s o c =
      if-elim IsContiguous (o.closed || is_some o.failure) _ _ (λ _. c)
        (λ _.
          if-elim IsContiguous (is_gap started o.last_sample_at) _ _ (λ _. c)
            (λ _. run_sample-IsContiguous started finished wall s o c))

  renew-IsContiguous :
      (now : ℕ) (o : Observer) → IsContiguous o → IsContiguous (or_default (renew now o) o)
  unfolding renew
  renew-IsContiguous now o c =
      if-elim (λ r. IsContiguous (or_default r o))
        (ltb now o.valid_until && (not o.closed && not (is_some o.failure))) _ _ (λ _. c) (λ _. c)

  take_steps-IsContiguous :
      (ss : List Step) (o : Observer) → IsContiguous o → IsContiguous (take_steps json_bytes ss o)
  unfolding take_steps take_step
  take_steps-IsContiguous [] o c = c
  take_steps-IsContiguous (sample_due started finished wall s ∷ ss) o c =
      take_steps-IsContiguous ss (schedule_sample json_bytes started finished wall s o)
        (schedule_sample-IsContiguous started finished wall s o c)
  take_steps-IsContiguous (renewed now ∷ ss) o c =
      take_steps-IsContiguous ss (or_default (renew now o) o) (renew-IsContiguous now o c)

require-ok_lem : (b : Bool) (e : ChannelError) → require b e ≡ ok tt → b ≡ true
require-ok_lem true e h = refl
require-ok_lem false e h = absurd (cc h)

not-true : (b : Bool) → not b ≡ true → b ≡ false
not-true true h = absurd (cc h)
not-true false h = refl

validate_token-retained :
    (now : ℕ) (o : Observer) (t : Token) → validate_token now o t ≡ ok tt → o.evicted ≤ t.seq
unfolding validate_token
validate_token-retained now o t h =
    let alive =
      require-eq-ok (not (ltb t.exp now || (ltb o.valid_until now || has_expired o.failure))) _ _
        h in
    let same = require-eq-ok (text_eq t.instance_id o.instance_id) _ _ alive.1 in
    ltb→ge t.seq o.evicted (not-true _ (require-ok_lem _ _ same.1))

accepted-seqs :
    (o : Observer) (now : ℕ) (t : Token)
    → IsContiguous o
    → validate_token now o t ≡ ok tt
    → t.seq ≤ o.seq
    → seqs (events_after t.seq o.events) ≡ count_up t.seq (o.seq - t.seq)
accepted-seqs o now t c h l =
    seqs-events_after-within o.evicted o.events t.seq (o.seq - t.seq)
      (validate_token-retained now o t h)
      (subst (λ n. Chain o.evicted o.events n) (omega (arith, l)) c)

-- Whatever samples an observer has taken and however its history was trimmed, a cursor that is
-- accepted and whose number is not above the observer's still finds every later event: the events
-- behind it have the numbers that follow it, one by one, up to the observer's last.
pub events_after-take_steps :
    (json_bytes : List Event → ℕ) (id channel_id instance_id : Text) (created : ℕ)
    (identity snapshot : Text) (ss : List Step) (o : Observer) (now : ℕ) (t : Token)
    → take_steps json_bytes ss (new_observer id channel_id instance_id created identity snapshot)
      ≡ o
    → validate_token now o t ≡ ok tt
    → t.seq ≤ o.seq
    → seqs (events_after t.seq o.events) ≡ count_up t.seq (o.seq - t.seq)
unfolding new_observer
events_after-take_steps json_bytes id channel_id instance_id created identity snapshot ss o now t e
      h l =
    accepted-seqs o now t
      (subst IsContiguous e (
        take_steps-IsContiguous json_bytes ss
          (new_observer id channel_id instance_id created identity snapshot) refl))
      h l

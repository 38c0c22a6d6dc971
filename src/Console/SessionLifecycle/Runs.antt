-- ===== src/Console/SessionLifecycle/Runs.antt =====
-- console/src/session-lifecycle.ts: a sequence of calls of one adapter.
use mathlib.Core.List.{map-append, append_assoc, append-nil}
use agent_runtime_mcp.Base.{
  Bool, true, false, List, [], ◌∷◌, ◌++◌, map, Text, All, All-append, Option, ◌≡◌, ◌⊎◌, refl, sym,
  ap, ◌∙◌, inl, inr,
}
use agent_runtime_mcp.Console.SessionLifecycle.{
  Outcome, ok, refused, failed, Settings, CreateInput, KillInput, Action, create, kill, AuditResult,
  audit_ok, audit_error, audit_refused, Audit, Trace, append_audit, finish, admit_create,
  create_session, admit_kill, kill_session,
}
use agent_runtime_mcp.Console.SessionLifecycle.Guards.{
  IsCreateArgv, IsKillArgv, admit_create-IsCreateArgv, admit_kill-IsKillArgv,
}

-- A call, and whether the runner succeeds in it.
pub data LifecycleCall : Type 0 where
  creates : Bool → CreateInput → LifecycleCall
  kills : Bool → KillInput → LifecycleCall

abbrev pub new_trace : Trace
new_trace = record { runs = []; audits = [] }

-- What the audit line must say of an outcome.
pub result_of : Outcome Text → AuditResult
result_of (ok name) = audit_ok
result_of (refused reason) = audit_refused reason
result_of failed = audit_error

module _ (resolve : Text → Text) (realpath : Text → Option Text) (s : Settings) where
  pub call : LifecycleCall → Trace → Trace × Outcome Text
  call (creates runs input) t = create_session resolve realpath s runs input t
  call (kills runs input) t = kill_session s runs input t

  pub call_all : List LifecycleCall → Trace → Trace × List (Outcome Text)
  call_all [] t = (t, [])
  call_all (c ∷ cs) t =
      let (after, outcome) = call c t in
      let (final, outcomes) = call_all cs after in (final, outcome ∷ outcomes)

  -- The arguments are those of an admitted creation or of an admitted removal.
  abbrev pub IsAdmitted : List Text → Type 0
  IsAdmitted argv =
      ((input : CreateInput) × IsCreateArgv resolve realpath s input argv)
      ⊎ ((input : KillInput) × IsKillArgv s input argv)

  abbrev IsAudited : Trace → Trace → List (Outcome Text) → Type 0
  IsAudited t after outcomes =
      (All IsAdmitted t.runs → All IsAdmitted after.runs)
      × (map (λ (a : Audit). a.result) after.audits
          ≡ map (λ (a : Audit). a.result) t.audits ++ map result_of outcomes)

  finish-IsAudited :
      (runs : Bool) (action : Action) (name actor : Text) (o : Outcome (List Text))
      → ((argv : List Text) → o ≡ ok argv → IsAdmitted argv)
      → (t : Trace)
      → IsAudited t
          (finish runs action name actor o t).0
          ((finish runs action name actor o t).1 ∷ [])
  unfolding finish append_audit result_of
  finish-IsAudited true action name actor (ok argv) good t =
      (λ all. All-append _ t.runs (argv ∷ []) all (good argv refl, tt), map-append _ t.audits _)
  finish-IsAudited false action name actor (ok argv) good t =
      (λ all. All-append _ t.runs (argv ∷ []) all (good argv refl, tt), map-append _ t.audits _)
  finish-IsAudited true action name actor (refused reason) good t =
      (λ all. all, map-append _ t.audits _)
  finish-IsAudited false action name actor (refused reason) good t =
      (λ all. all, map-append _ t.audits _)
  finish-IsAudited true action name actor failed good t = (λ all. all, map-append _ t.audits _)
  finish-IsAudited false action name actor failed good t = (λ all. all, map-append _ t.audits _)

  call-IsAudited : (c : LifecycleCall) (t : Trace) → IsAudited t (call c t).0 ((call c t).1 ∷ [])
  unfolding call create_session kill_session
  call-IsAudited (creates runs input) t =
      finish-IsAudited runs create input.name input.actor (admit_create resolve realpath s input)
        (λ argv e. inl (input, admit_create-IsCreateArgv resolve realpath s input argv e)) t
  call-IsAudited (kills runs input) t =
      finish-IsAudited runs kill input.name input.actor (admit_kill s input)
        (λ argv e. inr (input, admit_kill-IsKillArgv s input argv e)) t

  call_all-IsAudited :
      (cs : List LifecycleCall) (t : Trace) → IsAudited t (call_all cs t).0 (call_all cs t).1
  unfolding call_all
  call_all-IsAudited [] t = (λ all. all, sym (append-nil _))
  call_all-IsAudited (c ∷ cs) t =
      let (one, line) = call-IsAudited c t in
      let (rest, lines) = call_all-IsAudited cs (call c t).0 in
      (
        λ all. rest (one all),
        lines
            ∙ ap (λ l. l ++ map result_of (call_all cs (call c t).0).1) line
            ∙ append_assoc (map (λ (a : Audit). a.result) t.audits) (result_of (call c t).1 ∷ [])
                (map result_of (call_all cs (call c t).0).1),
      )

-- From the empty trace, whatever the calls are and however the runner answers: everything the runner
-- is given comes from a creation or a removal that passed its checks, and the audit has one line per
-- call, in order, which says what the call returned.
pub call_all-IsAdmitted :
    (resolve : Text → Text) (realpath : Text → Option Text) (s : Settings) (cs : List LifecycleCall)
    → All (IsAdmitted resolve realpath s) (call_all resolve realpath s cs new_trace).0.runs
      × (map (λ (a : Audit). a.result) (call_all resolve realpath s cs new_trace).0.audits
          ≡ map result_of (call_all resolve realpath s cs new_trace).1)
call_all-IsAdmitted resolve realpath s cs =
    let (admitted, audited) = call_all-IsAudited resolve realpath s cs new_trace in
    (admitted tt, audited)

-- ===== src/Console/SessionLifecycle.antt =====
-- console/src/session-lifecycle.ts. The path functions of Node are parameters of the module, and
-- whether the runner throws is an argument of each call. The calls of the runner and the audit lines
-- are kept in the order in which they are made.
pub mod Substitute
pub mod Guards
pub mod Runs
use agent_runtime_mcp.Base.{
  ℕ, suc, ◌+◌, Bool, true, false, not, ◌&&◌, ◌||◌, Option, none, some, List, [], ◌∷◌, ◌++◌, map,
  Text, text_eq, is_empty, length, take, any, filter, codes, starts_with, if◌then◌else◌,
}
use agent_runtime_mcp.Console.Tmux.{
  TmuxEnv, is_session_name, is_out_of_scope, includes, trim, scope_of, socket_args_of,
}
use Substitute.{replace_all}

pub data Reason : Type 0 where
  disabled invalid_name out_of_scope profile_not_allowlisted cwd_outside_roots : Reason
  protected_session : Reason

-- `failed` is any other error: of the runner, or a TypeError.
pub data Outcome (A : Type 0) : Type 0 where
  ok : A → Outcome A
  refused : Reason → Outcome A
  failed : Outcome A

infixl 5 ◌>>=◌ ◌>>◌
abbrev pub ◌>>=◌ : {A B : Type 0} → Outcome A → (A → Outcome B) → Outcome B
ok a >>= f = f a
refused r >>= f = refused r
failed >>= f = failed

abbrev pub ◌>>◌ : {B : Type 0} → Outcome (Unit {0}) → Outcome B → Outcome B
check >> rest = check >>= λ _. rest

-- `if (!test) throw new LifecycleRefusal(reason, …)`
abbrev pub require : Bool → Reason → Outcome (Unit {0})
require true reason = ok tt
require false reason = refused reason

pub record Profile : Type 0 where
  pub label : Text
  pub argv : List Text

pub record Settings : Type 0 where
  pub enabled : Bool
  pub profiles : List Profile
  pub roots : List Text
  pub protected_sessions : List Text
  pub tmux_env : TmuxEnv

pub data Action : Type 0 where
  create kill : Action

pub data AuditResult : Type 0 where
  audit_ok audit_error : AuditResult
  audit_refused : Reason → AuditResult

pub record Audit : Type 0 where
  pub actor : Text
  pub action : Action
  pub session : Text
  pub result : AuditResult

pub record CreateInput : Type 0 where
  pub name : Text
  pub cwd : Text
  pub profile : Text
  pub actor : Text

pub record KillInput : Type 0 where
  pub name : Text
  pub actor : Text

-- What the adapter has done so far.
pub record Trace : Type 0 where
  pub runs : List (List Text)
  pub audits : List Audit

pub profile_labels : Settings → List Text
profile_labels s = if s.enabled then map (λ (p : Profile). p.label) s.profiles else []

-- The names that every JavaScript object inherits.
abbrev pub inherited : List Text
inherited =
    codes "constructor"
    ∷ codes "__defineGetter__"
    ∷ codes "__defineSetter__"
    ∷ codes "hasOwnProperty"
    ∷ codes "__lookupGetter__"
    ∷ codes "__lookupSetter__"
    ∷ codes "isPrototypeOf"
    ∷ codes "propertyIsEnumerable"
    ∷ codes "toString"
    ∷ codes "valueOf"
    ∷ codes "__proto__"
    ∷ codes "toLocaleString"
    ∷ []

-- What `profiles[label]` gives: a profile, an inherited property without `argv`, or undefined.
pub data Found : Type 0 where
  own : List Text → Found
  no_argv missing : Found

pub find_profile : List Profile → Text → Found
find_profile [] label = if includes inherited label then no_argv else missing
find_profile (p ∷ ps) label =
    let rest = find_profile ps label in if text_eq p.label label then own p.argv else rest

abbrev pub found_profile : Found → Outcome (Option (List Text))
found_profile (own argv) = ok (some argv)
found_profile no_argv = ok none
found_profile missing = refused profile_not_allowlisted

-- `profile.argv.map(…)`, a TypeError where there is no `argv`.
abbrev pub fill_template : Option (List Text) → Text → Text → Outcome (List Text)
fill_template none name cwd = failed
fill_template (some argv) name cwd =
    ok (map (λ arg. replace_all (codes "{cwd}") cwd (replace_all (codes "{name}") name arg)) argv)

pub append_audit : Text → Action → Text → AuditResult → Trace → Trace
append_audit actor action session result t = record t {
  audits =
      t.audits
      ++ record {
        actor = take 64 actor;
        action = action;
        session = take 64 session;
        result = result;
      }
        ∷ [];
}

-- The two ways in which a call that is admitted or not ends: the runner is called, or it is not.
pub finish :
    (runs : Bool)
    → Action
    → (name actor : Text) → Outcome (List Text)
    → Trace
    → Trace × Outcome Text
finish true action name actor (ok argv) t =
    (append_audit actor action name audit_ok (record t { runs = t.runs ++ argv ∷ [] }), ok name)
finish false action name actor (ok argv) t =
    (append_audit actor action name audit_error (record t { runs = t.runs ++ argv ∷ [] }), failed)
finish runs action name actor (refused reason) t =
    (append_audit actor action name (audit_refused reason) t, refused reason)
finish runs action name actor failed t = (append_audit actor action name audit_error t, failed)

-- `real === realRoot || real.startsWith(realRoot + sep)`
abbrev pub is_inside : Text → Text → Bool
is_inside real root = text_eq real root || starts_with real (root ++ b'/' ∷ [])

module _ (realpath : Text → Option Text) where
  -- The loop over the roots; one that does not resolve is passed over.
  pub under_roots : Text → List Text → Bool
  under_roots real [] = false
  under_roots real (root ∷ roots) = elim (realpath root) [
    | none ↦ under_roots real roots
    | some real_root ↦ if is_inside real real_root then true else under_roots real roots
  ]

module _ (resolve : Text → Text) (realpath : Text → Option Text) where
  pub resolve_cwd : List Text → Text → Outcome Text
  resolve_cwd roots cwd =
      if is_empty (trim cwd) then refused cwd_outside_roots else elim (realpath (resolve cwd)) [
        | none ↦ refused cwd_outside_roots
        | some real ↦ if under_roots realpath real roots then ok real else refused cwd_outside_roots
      ]

  -- The arguments for the runner, or why there are none.
  pub admit_create : Settings → CreateInput → Outcome (List Text)
  admit_create s input = do
    require s.enabled disabled
    require (is_session_name input.name) invalid_name
    require (not (is_out_of_scope (scope_of s.tmux_env) input.name)) out_of_scope
    profile ← found_profile (find_profile s.profiles input.profile)
    cwd ← resolve_cwd s.roots input.cwd
    argv ← fill_template profile input.name cwd
    ok (
        socket_args_of s.tmux_env
        ++ (codes "new-session" ∷ codes "-d" ∷ codes "-s" ∷ input.name ∷ codes "-c" ∷ cwd ∷ argv))

  pub create_session : Settings → (runs : Bool) → CreateInput → Trace → Trace × Outcome Text
  create_session s runs input t = finish runs create input.name input.actor (admit_create s input) t

pub admit_kill : Settings → KillInput → Outcome (List Text)
admit_kill s input = do
  require s.enabled disabled
  require (is_session_name input.name) invalid_name
  require (not (is_out_of_scope (scope_of s.tmux_env) input.name)) out_of_scope
  require (not (includes s.protected_sessions input.name)) protected_session
  ok (socket_args_of s.tmux_env ++ (codes "kill-session" ∷ codes "-t" ∷ input.name ∷ []))

pub kill_session : Settings → (runs : Bool) → KillInput → Trace → Trace × Outcome Text
kill_session s runs input t = finish runs kill input.name input.actor (admit_kill s input) t

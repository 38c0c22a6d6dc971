-- ===== src/Console/HttpApp/Lifecycle.antt =====
-- console/src/http-app.ts, `handleLifecycle`: a session is made or killed.
use agent_runtime_mcp.Base.{
  Bool, false, not, Option, none, some, List, [], ◌∷◌, Text, codes, or_default, ◌||◌, if◌then◌else◌,
}
use agent_runtime_mcp.Console.HttpApp.{
  World, Request, ReplyBody, Handled, App, created, killed, send_error, invalid, not_found, replied,
  raised, read_json_body, parsed, body_refused,
}
use agent_runtime_mcp.Console.Json.{
  Json, Members, nil, member, object, find_member, is_true, string_at,
}
use agent_runtime_mcp.Console.McpClient.Calls.{other_error}
use agent_runtime_mcp.Console.SessionLifecycle.{
  Outcome, Settings, CreateInput, KillInput, ok, refused, failed, admit_create, admit_kill,
  create_session, kill_session,
}
use agent_runtime_mcp.Console.Tmux.{includes}

pub data LifecycleAction : Type 0 where
  sessions kills : LifecycleAction

abbrev pub create_keys : List Text
create_keys = codes "name" ∷ codes "cwd" ∷ codes "profile" ∷ []

abbrev pub kill_keys : List Text
kill_keys = codes "name" ∷ codes "confirm" ∷ []

abbrev pub allowed_keys : LifecycleAction → List Text
allowed_keys sessions = create_keys
allowed_keys kills = kill_keys

-- `Object.keys(value).some((key) => !allowed.has(key))`
pub has_other_key : List Text → Members → Bool
has_other_key allowed nil = false
has_other_key allowed (member key value rest) =
    not (includes allowed key) || has_other_key allowed rest

pub data LifecycleInput : Type 0 where
  creates : CreateInput → LifecycleInput
  removes : KillInput → LifecycleInput

abbrev pub create_input : (actor : Text) → Members → Option LifecycleInput
create_input actor m = elim (string_at (codes "name") m) [
  | none ↦ none
  | some name ↦ elim (string_at (codes "cwd") m) [
    | none ↦ none
    | some cwd ↦ elim (string_at (codes "profile") m) [
      | none ↦ none
      | some profile ↦
          some (creates (record { name = name; cwd = cwd; profile = profile; actor = actor }))
    ]
  ]
]

abbrev pub kill_input : (actor : Text) → Members → Option LifecycleInput
kill_input actor m = elim (string_at (codes "name") m) [
  | none ↦ none
  | some name ↦
      if is_true (find_member (codes "confirm") m)
      then some (removes (record { name = name; actor = actor }))
      else none
]

-- What the body asks for: nothing where a key is not allowed, a field has another type, or a removal
-- is not confirmed.
pub lifecycle_input : LifecycleAction → (actor : Text) → Members → Option LifecycleInput
lifecycle_input action actor m =
    if has_other_key (allowed_keys action) m
    then none
    else elim action [ sessions ↦ create_input actor m | kills ↦ kill_input actor m ]

-- The reply to what the lifecycle adapter gives. An error with no arguments admitted for the runner is
-- the TypeError of an inherited profile name, and no error of tmux.
abbrev pub outcome_reply :
    (Text → ReplyBody) → (admitted : Outcome (List Text)) → Outcome Text → Handled
outcome_reply body admitted (ok session) = replied (record { status = 200; body = body session })
outcome_reply body admitted (refused reason) = replied (send_error 422 (codes "LIFECYCLE_REFUSED"))
outcome_reply body admitted failed = elim admitted [
  | failed ↦ raised other_error
  | _ ↦ replied (send_error 502 (codes "TMUX_ERROR"))
]

pub run_lifecycle : World → Settings → LifecycleInput → App → App × Handled
run_lifecycle w s (creates input) a =
    let (trace, outcome) = create_session w.resolve w.realpath s w.runs input a.trace in
    (
      record a { trace = trace },
      outcome_reply created (admit_create w.resolve w.realpath s input) outcome,
    )
run_lifecycle w s (removes input) a =
    let (trace, outcome) = kill_session s w.runs input a.trace in
    (record a { trace = trace }, outcome_reply killed (admit_kill s input) outcome)

abbrev pub actor_of : Request → Text
actor_of r = or_default r.remote_address (codes "unknown")

abbrev pub lifecycle_json :
    World → Settings → Request → LifecycleAction → Json → App → App × Handled
lifecycle_json w s r action value a = elim value [
  | object m ↦ elim (lifecycle_input action (actor_of r) m) [
    | none ↦ (a, replied (invalid 400))
    | some input ↦ run_lifecycle w s input a
  ]
  | _ ↦ (a, replied (invalid 400))
]

pub handle_lifecycle : World → Request → LifecycleAction → App → App × Handled
handle_lifecycle w r action a = elim a.lifecycle [
  | none ↦ (a, replied not_found)
  | some s ↦ elim (read_json_body w.parse_json r.chunks) [
    | body_refused status ↦ (a, replied (invalid status))
    | parsed value ↦ lifecycle_json w s r action value a
  ]
]

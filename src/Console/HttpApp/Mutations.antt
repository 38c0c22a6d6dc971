-- ===== src/Console/HttpApp/Mutations.antt =====
-- console/src/http-app.ts, `handleMutation`: a text or a control for a channel.
use agent_runtime_mcp.Base.{
  Bool, true, false, Option, none, some, List, [], ◌∷◌, Text, text_eq, codes, if◌then◌else◌,
}
use agent_runtime_mcp.Console.Events.{ConsoleEvent}
use agent_runtime_mcp.Console.Events
use agent_runtime_mcp.Console.History.Entry.{TransportResult, delivered, ambiguous}
use agent_runtime_mcp.Console.HttpApp.{
  McpCall, World, Request, Handled, App, write_text, send_control, delivered_body, send_error,
  invalid, replied, raised, was_delivered, was_ambiguous, was_rejected, mutation, log_line, ask,
  tell, read_json_body, parsed, body_refused,
}
use agent_runtime_mcp.Console.Json.{
  Json, Members, object, boolean, find_member, has_member, string_at,
}
use agent_runtime_mcp.Console.McpClient.Calls.{McpError, tool_error, Answer, answered, failed}
use agent_runtime_mcp.Console.Tmux.{includes}

pub data Kind : Type 0 where
  text_kind control_kind : Kind

pub data Mutation : Type 0 where
  send_text : (text : Text) (submit : Bool) → Mutation
  press : (control : Text) → Mutation

abbrev pub controls : List Text
controls = codes "ENTER" ∷ codes "INTERRUPT" ∷ codes "ESCAPE" ∷ []

-- `value.submit`, true where there is none; a value that is not a boolean is refused.
unfoldable pub submit_of : Members → Option Bool
submit_of m =
    if has_member (codes "submit") m
    then elim (find_member (codes "submit") m) [ boolean b ↦ some b | _ ↦ none ]
    else some true

abbrev pub text_of : Members → Text → Option Mutation
text_of m text = elim (submit_of m) [ none ↦ none | some submit ↦ some (send_text text submit) ]

-- The fields of the body, where they are as they must be.
unfoldable pub mutation_of : Kind → Members → Option Mutation
mutation_of text_kind m = elim (string_at (codes "text") m) [
  | none ↦ none
  | some text ↦ text_of m text
]
mutation_of control_kind m = elim (string_at (codes "control") m) [
  | none ↦ none
  | some control ↦ if includes controls control then some (press control) else none
]

abbrev pub call_of : (channel_id : Text) → Mutation → McpCall
call_of channel_id (send_text text submit) = write_text channel_id text submit
call_of channel_id (press control) = send_control channel_id control

abbrev pub event_of : (channel_id now : Text) → Mutation → TransportResult → ConsoleEvent
event_of channel_id now (send_text text submit) result =
    Events.user_turn channel_id text submit now result
event_of channel_id now (press control) result = Events.control channel_id control now result

unfoldable pub is_ambiguous_timeout : McpError → Bool
is_ambiguous_timeout e = elim e [ tool_error code ↦ text_eq code (codes "TIMEOUT") | _ ↦ false ]

-- From the call of the server on; its answer is `answer`.
unfoldable pub deliver :
    World → (channel_id : Text) → Mutation → Answer Members → App → App × Handled
deliver w id m (answered result) a = (
  log_line (mutation id was_delivered) (tell w.now (event_of id w.now m delivered) a),
  replied (record { status = 200; body = delivered_body result }),
)
deliver w id m (failed e) a =
    if is_ambiguous_timeout e
    then (
      log_line (mutation id was_ambiguous) (tell w.now (event_of id w.now m ambiguous) a),
      replied (send_error 504 (codes "TIMEOUT")),
    )
    else (log_line (mutation id was_rejected) a, raised e)

abbrev pub run_mutation : World → (channel_id : Text) → Option Mutation → App → App × Handled
run_mutation w id none a = (a, replied (invalid 400))
run_mutation w id (some m) a = deliver w id m (w.server (call_of id m)) (ask (call_of id m) a)

abbrev pub mutate_json : World → Kind → (channel_id : Text) → Json → App → App × Handled
mutate_json w kind id value a = elim value [
  | object m ↦ run_mutation w id (mutation_of kind m) a
  | _ ↦ (a, replied (invalid 400))
]

unfoldable pub handle_mutation : World → Request → Kind → (channel_id : Text) → App → App × Handled
handle_mutation w r kind id a = elim (read_json_body w.parse_json r.chunks) [
  | body_refused status ↦ (a, replied (invalid status))
  | parsed value ↦ mutate_json w kind id value a
]

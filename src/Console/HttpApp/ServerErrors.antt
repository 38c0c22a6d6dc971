-- ===== src/Console/HttpApp/ServerErrors.antt =====
-- src/mcp.ts, console/src/mcp-client.ts, console/src/http-app.ts and console/src/observer.ts: an error
-- of a channel, from where it is thrown to what the browser gets and what the observation does.
use agent_runtime_mcp.Base.{
  ℕ, ◌≤◌, Bool, true, false, Option, none, Text, text_eq, ◌≡◌, refl, ap, arith, if-elim,
}
use agent_runtime_mcp.Console.HistoryHub.{
  ObservationState, ChannelState, no_timer, polling, needs_reobserve, error, has_viewers, broadcast,
  set_state, schedule_poll, assign_timer, handle_loop_error,
}
use agent_runtime_mcp.Console.HttpApp.{send_error, map_error, status_of_code}
use agent_runtime_mcp.Console.Json.{Members, members_of, find_member, as_string}
use agent_runtime_mcp.Console.McpClient.Calls.{tool_error, Answer, failed, result, call_outcome}
use agent_runtime_mcp.Runtime.Errors.{
  channel_not_found, channel_unavailable, backend_unavailable, backend_operation_failed,
  invalid_argument, capability_unsupported, permission_denied, timeout, authentication_required,
  observation_unsupported, cursor_invalid, cursor_expired, observation_gap,
  channel_instance_changed, waiter_limit, resource_exhausted, wait_argument_invalid, Thrown,
  StructuredCode, channel_code, internal_error, to_structured_error,
}
use agent_runtime_mcp.Runtime.Tools.{failure, code_name, structured_name, error_payload, run_tool}

-- What an error is for the browser.
abbrev pub expected_status : StructuredCode → ℕ
expected_status internal_error = 502
expected_status (channel_code code) = elim code [
  | channel_not_found ↦ 404
  | channel_unavailable ↦ 503
  | backend_unavailable ↦ 503
  | backend_operation_failed ↦ 502
  | invalid_argument ↦ 400
  | capability_unsupported ↦ 502
  | permission_denied ↦ 502
  | timeout ↦ 504
  | authentication_required ↦ 502
  | observation_unsupported ↦ 502
  | cursor_invalid ↦ 400
  | cursor_expired ↦ 400
  | observation_gap ↦ 400
  | channel_instance_changed ↦ 400
  | waiter_limit ↦ 429
  | resource_exhausted ↦ 429
  | wait_argument_invalid ↦ 400
]

-- What it is for an observation that goes on: a channel to observe again, one to poll, or one in error.
abbrev pub expected_state : StructuredCode → ObservationState
expected_state internal_error = error
expected_state (channel_code code) = elim code [
  | cursor_invalid ↦ needs_reobserve
  | cursor_expired ↦ needs_reobserve
  | observation_gap ↦ needs_reobserve
  | channel_instance_changed ↦ needs_reobserve
  | waiter_limit ↦ polling
  | resource_exhausted ↦ polling
  | observation_unsupported ↦ polling
  | timeout ↦ polling
  | _ ↦ error
]

status_of_code-expected_status :
    (c : StructuredCode) → status_of_code (structured_name c) ≡ expected_status c
unfolding status_of_code structured_name code_name text_eq
status_of_code-expected_status internal_error = refl
status_of_code-expected_status (channel_code channel_not_found) = refl
status_of_code-expected_status (channel_code channel_unavailable) = refl
status_of_code-expected_status (channel_code backend_unavailable) = refl
status_of_code-expected_status (channel_code backend_operation_failed) = refl
status_of_code-expected_status (channel_code invalid_argument) = refl
status_of_code-expected_status (channel_code capability_unsupported) = refl
status_of_code-expected_status (channel_code permission_denied) = refl
status_of_code-expected_status (channel_code timeout) = refl
status_of_code-expected_status (channel_code authentication_required) = refl
status_of_code-expected_status (channel_code observation_unsupported) = refl
status_of_code-expected_status (channel_code cursor_invalid) = refl
status_of_code-expected_status (channel_code cursor_expired) = refl
status_of_code-expected_status (channel_code observation_gap) = refl
status_of_code-expected_status (channel_code channel_instance_changed) = refl
status_of_code-expected_status (channel_code waiter_limit) = refl
status_of_code-expected_status (channel_code resource_exhausted) = refl
status_of_code-expected_status (channel_code wait_argument_invalid) = refl

set_state-state :
    (s : ObservationState) (detail : Option Text) (cs : ChannelState)
    → (set_state s detail cs).state ≡ s
unfolding set_state broadcast
set_state-state s detail cs =
    if-elim (λ (cs' : ChannelState). cs'.state ≡ s) (has_viewers cs) _ _ (λ _. refl) (λ _. refl)

schedule_poll-state :
    (cs : ChannelState)
    → cs.stopped ≡ false
    → has_viewers cs ≡ true
    → (schedule_poll (record cs { poll_timer = no_timer })).state ≡ polling
unfolding schedule_poll assign_timer
schedule_poll-state cs on watched = rw (on, watched, schedule_poll) (set_state-state polling none _)

handle_loop_error-state :
    (c : StructuredCode) (cs : ChannelState)
    → cs.stopped ≡ false
    → has_viewers cs ≡ true
    → (handle_loop_error (tool_error (structured_name c)) cs).state ≡ expected_state c
unfolding handle_loop_error structured_name code_name text_eq
handle_loop_error-state internal_error cs on watched = set_state-state _ _ _
handle_loop_error-state (channel_code channel_not_found) cs on watched = set_state-state _ _ _
handle_loop_error-state (channel_code channel_unavailable) cs on watched = set_state-state _ _ _
handle_loop_error-state (channel_code backend_unavailable) cs on watched = set_state-state _ _ _
handle_loop_error-state (channel_code backend_operation_failed) cs on watched =
    set_state-state _ _ _
handle_loop_error-state (channel_code invalid_argument) cs on watched = set_state-state _ _ _
handle_loop_error-state (channel_code capability_unsupported) cs on watched = set_state-state _ _ _
handle_loop_error-state (channel_code permission_denied) cs on watched = set_state-state _ _ _
handle_loop_error-state (channel_code timeout) cs on watched = schedule_poll-state cs on watched
handle_loop_error-state (channel_code authentication_required) cs on watched = set_state-state _ _ _
handle_loop_error-state (channel_code observation_unsupported) cs on watched =
    schedule_poll-state cs on watched
handle_loop_error-state (channel_code cursor_invalid) cs on watched = set_state-state _ _ _
handle_loop_error-state (channel_code cursor_expired) cs on watched = set_state-state _ _ _
handle_loop_error-state (channel_code observation_gap) cs on watched = set_state-state _ _ _
handle_loop_error-state (channel_code channel_instance_changed) cs on watched =
    set_state-state _ _ _
handle_loop_error-state (channel_code waiter_limit) cs on watched =
    schedule_poll-state cs on watched
handle_loop_error-state (channel_code resource_exhausted) cs on watched =
    schedule_poll-state cs on watched
handle_loop_error-state (channel_code wait_argument_invalid) cs on watched = set_state-state _ _ _

expected_status_le : (c : StructuredCode) → 400 ≤ expected_status c
expected_status_le internal_error = omega arith
expected_status_le (channel_code channel_not_found) = omega arith
expected_status_le (channel_code channel_unavailable) = omega arith
expected_status_le (channel_code backend_unavailable) = omega arith
expected_status_le (channel_code backend_operation_failed) = omega arith
expected_status_le (channel_code invalid_argument) = omega arith
expected_status_le (channel_code capability_unsupported) = omega arith
expected_status_le (channel_code permission_denied) = omega arith
expected_status_le (channel_code timeout) = omega arith
expected_status_le (channel_code authentication_required) = omega arith
expected_status_le (channel_code observation_unsupported) = omega arith
expected_status_le (channel_code cursor_invalid) = omega arith
expected_status_le (channel_code cursor_expired) = omega arith
expected_status_le (channel_code observation_gap) = omega arith
expected_status_le (channel_code channel_instance_changed) = omega arith
expected_status_le (channel_code waiter_limit) = omega arith
expected_status_le (channel_code resource_exhausted) = omega arith
expected_status_le (channel_code wait_argument_invalid) = omega arith

-- What a tool that fails gives the console, whether or not the payload could be printed.
abbrev pub failed_outcome : (connected prints : Bool) → Thrown → Answer Members
failed_outcome connected prints e =
    let r = run_tool prints (failure e) in
    call_outcome connected (result r.is_error r.structured_content)

-- An error that a tool throws comes through the server and the client of the console under its own
-- name. The browser gets that name with the status that the error stands for, 400 at least; and an
-- observation that goes on observes the channel again, polls it or is in error, as the error asks for.
pub failed_outcome_expected :
    (connected prints : Bool) (e : Thrown) (cs : ChannelState)
    → cs.stopped ≡ false
    → has_viewers cs ≡ true
    → let code = (to_structured_error e).code in
      (failed_outcome connected prints e ≡ failed (tool_error (structured_name code)))
      × (map_error (tool_error (structured_name code))
          ≡ send_error (expected_status code) (structured_name code))
      × (400 ≤ expected_status code)
      × ((handle_loop_error (tool_error (structured_name code)) cs).state ≡ expected_state code)
unfolding run_tool error_payload call_outcome map_error members_of find_member as_string text_eq
failed_outcome_expected connected prints e cs on watched =
    let code = (to_structured_error e).code in
    (
      refl,
      ap (λ n. send_error n (structured_name code)) (status_of_code-expected_status code),
      expected_status_le code,
      handle_loop_error-state code cs on watched,
    )

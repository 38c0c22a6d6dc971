-- ===== src/Runtime/Tools.antt =====
-- src/mcp.ts: running a tool, with its diagnostics. What a tool is called with was checked by the
-- server library against the schemas; messages are left out.
pub mod Spans
use agent_runtime_mcp.Base.{
  ℕ, Bool, true, false, Option, none, some, List, [], ◌∷◌, ◌++◌, Text, codes, if◌then◌else◌,
}
use agent_runtime_mcp.Console.Json.{
  Json, Members, nil, member, string, object, find_member, as_string, members_of,
}
use agent_runtime_mcp.Runtime.Errors.{
  ChannelErrorCode, channel_not_found, channel_unavailable, backend_unavailable,
  backend_operation_failed, invalid_argument, capability_unsupported, permission_denied, timeout,
  authentication_required, observation_unsupported, cursor_invalid, cursor_expired, observation_gap,
  channel_instance_changed, waiter_limit, resource_exhausted, wait_argument_invalid, Thrown,
  channel_error, anything, StructuredCode, channel_code, internal_error, StructuredError,
  to_structured_error,
}

-- The strings of `ChannelErrorCode`.
unfoldable pub code_name : ChannelErrorCode → Text
code_name channel_not_found = codes "CHANNEL_NOT_FOUND"
code_name channel_unavailable = codes "CHANNEL_UNAVAILABLE"
code_name backend_unavailable = codes "BACKEND_UNAVAILABLE"
code_name backend_operation_failed = codes "BACKEND_OPERATION_FAILED"
code_name invalid_argument = codes "INVALID_ARGUMENT"
code_name capability_unsupported = codes "CAPABILITY_UNSUPPORTED"
code_name permission_denied = codes "PERMISSION_DENIED"
code_name timeout = codes "TIMEOUT"
code_name authentication_required = codes "AUTHENTICATION_REQUIRED"
code_name observation_unsupported = codes "OBSERVATION_UNSUPPORTED"
code_name cursor_invalid = codes "CURSOR_INVALID"
code_name cursor_expired = codes "CURSOR_EXPIRED"
code_name observation_gap = codes "OBSERVATION_GAP"
code_name channel_instance_changed = codes "CHANNEL_INSTANCE_CHANGED"
code_name waiter_limit = codes "WAITER_LIMIT"
code_name resource_exhausted = codes "RESOURCE_EXHAUSTED"
code_name wait_argument_invalid = codes "WAIT_ARGUMENT_INVALID"

unfoldable pub structured_name : StructuredCode → Text
structured_name (channel_code code) = code_name code
structured_name internal_error = codes "INTERNAL_ERROR"

-- `{ error: { code, message, details } }`; of these only the code is read on the other side.
unfoldable pub error_payload : StructuredError → Json
error_payload e = object (
    member (codes "error") (object (member (codes "code") (string (structured_name e.code)) nil))
      nil)

pub data Settlement : Type 0 where
  success : Json → Settlement
  failure : Thrown → Settlement

pub record ToolResult : Type 0 where
  pub is_error : Bool
  pub structured_content : Json

abbrev pub error_result : Thrown → ToolResult
error_result e = record {
  is_error = true;
  structured_content = error_payload (to_structured_error e);
}

-- `prints` is whether the payload can be written as JSON.
unfoldable pub run_tool : (prints : Bool) → Settlement → ToolResult
run_tool prints (failure e) = error_result e
run_tool true (success payload) = record { is_error = false; structured_content = payload }
run_tool false (success payload) = error_result anything

pub result_error_code : ToolResult → Option Text
result_error_code r = as_string (
    find_member (codes "code")
      (members_of (find_member (codes "error") (members_of r.structured_content))))

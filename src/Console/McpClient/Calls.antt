-- ===== src/Console/McpClient/Calls.antt =====
-- console/src/mcp-client.ts, `call`: what a request of a tool gives. The protocol client is not part
-- of the repository: what it gives is the argument of `call_outcome`.
use agent_runtime_mcp.Base.{Bool, true, false, codes, Text, or_default, ◌≡◌, ◌⊎◌, refl, inl, inr}
use agent_runtime_mcp.Console.Json.{Json, Members, members_of, record_at, string_at}

pub data McpError : Type 0 where
  unavailable other_error : McpError
  tool_error : Text → McpError

pub data Answer (A : Type 0) : Type 0 where
  answered : A → Answer A
  failed : McpError → Answer A

pub Answer-cases :
    {A : Type 0} (x : Answer A) → ((v : A) × (x ≡ answered v)) ⊎ ((e : McpError) × (x ≡ failed e))
Answer-cases (answered v) = inl (v, refl)
Answer-cases (failed e) = inr (e, refl)

pub data Reply : Type 0 where
  request_timeout request_failed : Reply
  result : (is_error : Bool) → (structured_content : Json) → Reply

-- `connected` is whether the client is still there when the request has failed.
unfoldable pub call_outcome : (connected : Bool) → Reply → Answer Members
call_outcome connected request_timeout = failed (tool_error (codes "TIMEOUT"))
call_outcome true request_failed = failed (tool_error (codes "MCP_REQUEST_FAILED"))
call_outcome false request_failed = failed unavailable
call_outcome connected (result true structured) = failed (
    tool_error (
      or_default (string_at (codes "code") (record_at (codes "error") (members_of structured)))
        (codes "MCP_TOOL_ERROR")))
call_outcome connected (result false structured) = answered (members_of structured)

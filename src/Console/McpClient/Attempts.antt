-- ===== src/Console/McpClient/Attempts.antt =====
-- console/src/mcp-client.ts: in which order attempts to connect are made, whoever asks for the client.
use agent_runtime_mcp.Base.{ℕ, ◌+◌, ◌≤◌, true, false, none, some, List, [], ◌∷◌, ◌≡◌}
use agent_runtime_mcp.Console.McpClient.{
  Options, ConnectEvent, began, connects, fails, lost, McpClient,
}

-- Where the client stands: without a connection, which it may ask for from `until` on; in an attempt; or
-- with a connection.
pub data Phase : Type 0 where
  resting : (until : ℕ) → Phase
  trying : (attempt until : ℕ) → Phase
  online : (until : ℕ) → Phase

-- The logs, the newest event first, and the phase that each ends in.
pub data IsLog (options : Options) : List ConnectEvent → Phase → Type 0 where
  nothing : IsLog options [] (resting 0)
  -- A round begins when no attempt is under way, there is no connection, and the cool-down is over.
  begins :
      (es : List ConnectEvent) (until now : ℕ)
      → until ≤ now
      → 1 ≤ options.reconnect_attempts
      → IsLog options es (resting until)
      → IsLog options (began 1 ∷ es) (trying 1 until)
  -- No attempt is allowed.
  gives_up_at_once :
      (es : List ConnectEvent) (until now : ℕ)
      → until ≤ now
      → options.reconnect_attempts ≡ 0
      → IsLog options es (resting until)
      → IsLog options es (resting (now + options.reconnect_cooldown_ms))
  makes :
      (es : List ConnectEvent) (attempt until : ℕ)
      → IsLog options es (trying attempt until)
      → IsLog options (connects attempt ∷ es) (online until)
  tries_again :
      (es : List ConnectEvent) (attempt until : ℕ)
      → attempt + 1 ≤ options.reconnect_attempts
      → IsLog options es (trying attempt until)
      → IsLog options (began (attempt + 1) ∷ fails attempt ∷ es) (trying (attempt + 1) until)
  gives_up :
      (es : List ConnectEvent) (attempt until now : ℕ)
      → options.reconnect_attempts ≤ attempt
      → IsLog options es (trying attempt until)
      → IsLog options (fails attempt ∷ es) (resting (now + options.reconnect_cooldown_ms))
  loses :
      (es : List ConnectEvent) (until : ℕ)
      → IsLog options es (online until)
      → IsLog options (lost ∷ es) (resting until)

-- The state of the client is one of the phases, and its log ends in it.
pub data IsConnecting (options : Options) (c : McpClient) : Type 0 where
  rests :
      c.connected ≡ false
      → c.connecting ≡ none
      → IsLog options c.log (resting c.unavailable_until)
      → IsConnecting options c
  tries :
      (attempt : ℕ)
      → c.connected ≡ false
      → c.connecting ≡ some attempt
      → IsLog options c.log (trying attempt c.unavailable_until)
      → IsConnecting options c
  has_connection :
      c.connected ≡ true
      → c.connecting ≡ none
      → IsLog options c.log (online c.unavailable_until)
      → IsConnecting options c

-- ===== src/Console/McpClient.antt =====
-- console/src/mcp-client.ts: connecting to the server, with attempts and a cool-down, cut at each `await`
-- into steps, between which any other call may come. The outcome of an attempt and the clock are
-- arguments of the step, which takes the wait before the next attempt with it.
pub mod Attempts
pub mod Calls
use agent_runtime_mcp.Base.{
  ℕ, zero, suc, ◌+◌, ◌-◌, ◌*◌, ◌^◌, Bool, true, false, Option, none, some, List, [], ◌∷◌, ◌++◌, ltb,
  if◌then◌else◌,
}

pub record Options : Type 0 where
  pub reconnect_attempts : ℕ
  pub reconnect_base_delay_ms : ℕ
  pub reconnect_cooldown_ms : ℕ

-- What happens to the connection; the number of an attempt is that of its round.
pub data ConnectEvent : Type 0 where
  began connects fails : (attempt : ℕ) → ConnectEvent
  lost : ConnectEvent

-- `connecting` is the attempt under way, `log` has the newest event first, and `delays` has the waits
-- between attempts.
pub record McpClient : Type 0 where
  pub connected : Bool
  pub connecting : Option ℕ
  pub unavailable_until : ℕ
  pub log : List ConnectEvent
  pub delays : List ℕ

pub new_client : McpClient
new_client = record {
  connected = false;
  connecting = none;
  unavailable_until = 0;
  log = [];
  delays = [];
}

-- What ensureClient gives: the client, the promise of the connection that is being made, or an error.
pub data Answer : Type 0 where
  client pending cooling_down : Answer

-- `if (attempt < this.reconnectAttempts) await delay(…)`
abbrev pub delays_after : Options → ℕ → List ℕ
delays_after options attempt =
    if ltb attempt options.reconnect_attempts
    then options.reconnect_base_delay_ms * 2 ^ (attempt - 1) ∷ []
    else []

-- The head of the loop of connectWithRetry, and what follows the loop.
pub connect_with_retry : Options → (attempt now : ℕ) → McpClient → McpClient
connect_with_retry options attempt now c =
    if ltb options.reconnect_attempts attempt
    then record c { connecting = none; unavailable_until = now + options.reconnect_cooldown_ms }
    else record c { connecting = some attempt; log = began attempt ∷ c.log }

-- An attempt ends.
pub connect_ended : Options → (now : ℕ) → (works : Bool) → McpClient → McpClient
connect_ended options now works c = elim c.connecting [
  | none ↦ c
  | some attempt ↦
      if works
      then record c { connected = true; connecting = none; log = connects attempt ∷ c.log }
      else connect_with_retry options (attempt + 1) now (record c {
        log = fails attempt ∷ c.log;
        delays = c.delays ++ delays_after options attempt;
      })
]

pub ensure_client : Options → (now : ℕ) → McpClient → McpClient × Answer
ensure_client options now c = if c.connected then (c, client) else elim c.connecting [
  | some attempt ↦ (c, pending)
  | none ↦
      if ltb now c.unavailable_until
      then (c, cooling_down)
      else (connect_with_retry options 1 now c, pending)
]

-- `transport.onclose`, and `close`
pub disconnect : McpClient → McpClient
disconnect c = if c.connected then record c { connected = false; log = lost ∷ c.log } else c

pub data ClientCall : Type 0 where
  ensures : (now : ℕ) → ClientCall
  ends : (now : ℕ) (works : Bool) → ClientCall
  disconnects : ClientCall

pub run : Options → List ClientCall → McpClient → McpClient
run options [] c = c
run options (ensures now ∷ calls) c = run options calls (ensure_client options now c).0
run options (ends now works ∷ calls) c = run options calls (connect_ended options now works c)
run options (disconnects ∷ calls) c = run options calls (disconnect c)

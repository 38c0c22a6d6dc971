-- ===== src/Runtime/TmuxBackend/Commands.antt =====
-- src/tmux-backend.ts: commands, the runner, and the classification of its failures.
use agent_runtime_mcp.Base.{
  ℕ, ◌+◌, Bool, ◌&&◌, ◌||◌, Option, List, [], ◌∷◌, ◌++◌, map, Text, codes, is_empty, starts_with,
  leb, or_default, if◌then◌else◌,
}
use agent_runtime_mcp.Runtime.Errors.{
  channel_not_found, backend_unavailable, backend_operation_failed, timeout, text, ChannelError,
  Result, ok, thrown,
}

-- A command of the runner; the executable and the time limit are those of the configuration.
pub record Command : Type 0 where
  pub args : List Text
  pub max_buffer_bytes : ℕ
  pub stdin : Option Text

pub record ExecFailure : Type 0 where
  pub is_missing : Bool
  pub is_killed : Bool
  pub stderr : Option Text

pub data Reply : Type 0 where
  answered : Text → Reply
  failed : ExecFailure → Reply

abbrev pub Runner : Type 0
Runner = List Command → Command → Reply

-- Runs commands and gives a result or throws.
abbrev pub Proc : Type 0 → Type 0
Proc A = List Command → List Command × Result A

infixl 5 ◌>>=◌ ◌>>◌
abbrev pub ◌>>=◌ : {A B : Type 0} → Proc A → (A → Proc B) → Proc B
(m >>= f) log = elim (m log).1 [ ok a ↦ f a (m log).0 | thrown e ↦ ((m log).0, thrown e) ]

abbrev pub ◌>>◌ : {A B : Type 0} → Proc A → Proc B → Proc B
m >> k = m >>= λ _. k

abbrev pub lift : {A : Type 0} → Result A → Proc A
lift r log = (log, r)

abbrev pub lower : ℕ → ℕ
lower c = if leb b'A' c && leb c b'Z' then c + 32 else c

-- `text.includes(part)`
pub contains : Text → Text → Bool
contains [] part = is_empty part
contains (c ∷ s) part = starts_with (c ∷ s) part || contains s part

pub classify_tmux_failure : ExecFailure → Text → Bool → ChannelError
classify_tmux_failure failure operation terminal_mutation =
    let stderr = map lower (or_default failure.stderr []) in
    let details = (codes "operation", text operation) ∷ [] in
    if failure.is_missing
    then record { code = backend_unavailable; details = details }
    else if failure.is_killed
    then record {
      code = timeout;
      details =
          details
          ++ (if terminal_mutation
              then (codes "delivery_outcome", text (codes "unknown")) ∷ []
              else []);
    }
    else if contains stderr (codes "can't find pane") || contains stderr (codes "no such pane")
    then record { code = channel_not_found; details = details }
    else if contains stderr (codes "no server running")
        || contains stderr (codes "failed to connect")
        || contains stderr (codes "connection refused")
        || contains stderr (codes "error connecting")
    then record { code = backend_unavailable; details = details }
    else record { code = backend_operation_failed; details = details }

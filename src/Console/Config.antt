-- ===== src/Console/Config.antt =====
-- console/src/config.ts: the settings that are numbers, flags and names. A ConfigError is `none`.
pub mod Ranges
pub mod Protected
use agent_runtime_mcp.Base.{
  ℕ, ◌*◌, Bool, true, false, not, ◌&&◌, ◌||◌, Option, none, some, List, [], ◌∷◌, ◌++◌, Text, codes,
  is_empty, text_eq, starts_with, is_digit, value_from, split, ltb, find, filter, every, or_default,
  if◌then◌else◌,
}
use agent_runtime_mcp.Console.Tmux.{trim, includes}

infixl 5 ◌>>=◌
abbrev pub ◌>>=◌ : {A B : Type 0} → Option A → (A → Option B) → Option B
none >>= f = none
some a >>= f = f a

-- `process.env`: names with their values, no name twice.
abbrev pub Env : Type 0
Env = List (Text × Text)

abbrev pub get : Env → Text → Option Text
get [] name = none
get ((key, value) ∷ env) name =
    let rest = get env name in if text_eq key name then some value else rest

-- `raw === undefined || raw.trim() === ''`
abbrev pub is_blank : Option Text → Bool
is_blank none = true
is_blank (some raw) = is_empty (trim raw)

-- `/^[0-9]+$/`
abbrev pub is_digits : Text → Bool
is_digits s = not (is_empty s) && every is_digit s

unfoldable pub bounded_int : Option Text → (fallback min max : ℕ) → Option ℕ
bounded_int raw fallback min max =
    let text = trim (or_default raw []) in
    let value = value_from 10 0 text in
    if is_blank raw
    then some fallback
    else if not (is_digits text)
    then none
    else if ltb value min || ltb max value
    then none
    else some value

unfoldable pub parse_port : Option Text → Option ℕ
parse_port raw =
    let text = trim (or_default raw []) in
    let port = value_from 10 0 text in
    if is_blank raw
    then some 8080
    else if not (is_digits text)
    then none
    else if ltb port 1 || ltb 65535 port
    then none
    else some port

unfoldable pub parse_request_timeout : Option Text → Option ℕ
parse_request_timeout raw =
    let text = trim (or_default raw []) in
    let ms = value_from 10 0 text in
    if is_blank raw
    then some 10000
    else if not (is_digits text)
    then none
    else if ltb ms 1 || ltb 120000 ms
    then none
    else some ms

unfoldable pub parse_enabled_flag : Option Text → Option Bool
parse_enabled_flag raw =
    let value = trim (or_default raw []) in
    if is_blank raw
    then some false
    else if text_eq value (codes "true") || text_eq value (codes "1")
    then some true
    else if text_eq value (codes "false") || text_eq value (codes "0")
    then some false
    else none

-- `set.add(name)`
abbrev pub add : List Text → Text → List Text
add names name = if includes names name then names else names ++ name ∷ []

-- The loop over the names of the variable.
pub add_all : List Text → List Text → List Text
add_all sessions [] = sessions
add_all sessions (name ∷ names) =
    add_all (if is_empty (trim name) then sessions else add sessions (trim name)) names

unfoldable pub parse_protected_sessions : Option Text → List Text
parse_protected_sessions raw =
    let keeper = codes "agent-runtime-keeper" ∷ [] in
    if is_blank raw then keeper else add_all keeper (split b',' (or_default raw []))

pub record History : Type 0 where
  pub max_lines : ℕ
  pub max_bytes : ℕ
  pub max_observed_channels : ℕ
  pub observe_idle_ms : ℕ
  pub observe_timeout_ms : ℕ
  pub observe_busy_timeout_ms : ℕ
  pub poll_ms : ℕ
  pub tail_lines : ℕ
  pub tail_bytes : ℕ

pub record ConsoleConfig : Type 0 where
  pub bind : Text
  pub port : ℕ
  pub request_timeout_ms : ℕ
  pub tmux_env : Env
  pub history : History
  pub lifecycle_enabled : Bool
  pub protected_sessions : List Text
  pub terminal_enabled : Bool
  pub max_attach : ℕ

unfoldable pub load_history : Env → Option History
load_history env = do
  max_lines ← bounded_int (get env (codes "CONSOLE_HISTORY_MAX_LINES")) 5000 10 100000
  max_bytes ←
      bounded_int (get env (codes "CONSOLE_HISTORY_MAX_BYTES")) (2 * 1024 * 1024) 4096
        (64 * 1024 * 1024)
  max_observed_channels ← bounded_int (get env (codes "CONSOLE_HISTORY_MAX_CHANNELS")) 4 1 8
  observe_idle_ms ← bounded_int (get env (codes "CONSOLE_OBSERVE_IDLE_MS")) 1000 250 60000
  observe_timeout_ms ← bounded_int (get env (codes "CONSOLE_OBSERVE_TIMEOUT_MS")) 15000 100 60000
  observe_busy_timeout_ms ←
      bounded_int (get env (codes "CONSOLE_OBSERVE_BUSY_TIMEOUT_MS")) 600 100 5000
  poll_ms ← bounded_int (get env (codes "CONSOLE_OBSERVE_POLL_MS")) 2500 500 60000
  tail_lines ← bounded_int (get env (codes "CONSOLE_TAIL_LINES")) 400 10 2000
  tail_bytes ← bounded_int (get env (codes "CONSOLE_TAIL_BYTES")) (256 * 1024) 4096 (1024 * 1024)
  some (record {
    max_lines = max_lines;
    max_bytes = max_bytes;
    max_observed_channels = max_observed_channels;
    observe_idle_ms = observe_idle_ms;
    observe_timeout_ms = observe_timeout_ms;
    observe_busy_timeout_ms = observe_busy_timeout_ms;
    poll_ms = poll_ms;
    tail_lines = tail_lines;
    tail_bytes = tail_bytes;
  })

-- `env.CONSOLE_BIND?.trim() || DEFAULT_BIND`
abbrev pub bind_of : Env → Text
bind_of env =
    let bind = trim (or_default (get env (codes "CONSOLE_BIND")) []) in
    if is_empty bind then codes "127.0.0.1" else bind

unfoldable pub load_config : Env → Option ConsoleConfig
load_config env = do
  port ← parse_port (get env (codes "CONSOLE_PORT"))
  request_timeout_ms ← parse_request_timeout (get env (codes "CONSOLE_MCP_REQUEST_TIMEOUT_MS"))
  history ← load_history env
  lifecycle_enabled ← parse_enabled_flag (get env (codes "CONSOLE_LIFECYCLE_ENABLED"))
  terminal_enabled ← parse_enabled_flag (get env (codes "CONSOLE_TERMINAL_ENABLED"))
  max_attach ← bounded_int (get env (codes "CONSOLE_MAX_ATTACH")) 4 1 16
  some (record {
    bind = bind_of env;
    port = port;
    request_timeout_ms = request_timeout_ms;
    tmux_env = filter (λ (p : Text × Text). starts_with p.0 (codes "TMUX_")) env;
    history = history;
    lifecycle_enabled = lifecycle_enabled;
    protected_sessions = parse_protected_sessions (get env (codes "CONSOLE_PROTECTED_SESSIONS"));
    terminal_enabled = terminal_enabled;
    max_attach = max_attach;
  })

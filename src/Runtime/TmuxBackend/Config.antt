-- ===== src/Runtime/TmuxBackend/Config.antt =====
-- src/tmux-backend.ts: `resolveConfig` and the arguments that select a tmux server.
use agent_runtime_mcp.Base.{
  ℕ, ◌≤◌, ◌*◌, min, Bool, true, false, not, ◌&&◌, Option, none, some, or_default, List, [], ◌∷◌,
  ◌++◌, Text, codes, is_empty, leb, any, text_eq, if◌then◌else◌, ◌≡◌, subst, arith, if-elim,
}
use agent_runtime_mcp.Runtime.Errors.{
  invalid_argument, plain, Result, ok, thrown, ◌>>=◌, ◌>>◌, require, >>=-eq-ok, require-eq-ok,
  ok-inj,
}

-- A JavaScript number: an integer that is not negative, or any other.
pub data Number : Type 0 where
  natural : ℕ → Number
  other : Number

pub record TmuxBackendConfig : Type 0 where
  pub tmux_executable : Option Text
  pub socket_name : Option Text
  pub socket_path : Option Text
  pub allowed_sessions : Option (List Text)
  pub timeout_ms : Option Number
  pub max_channels : Option Number
  pub default_read_lines : Option Number
  pub max_read_lines : Option Number
  pub max_read_bytes : Option Number

pub record ResolvedTmuxBackendConfig : Type 0 where
  pub tmux_executable : Text
  pub socket_name : Option Text
  pub socket_path : Option Text
  pub allowed_sessions : Option (List Text)
  pub timeout_ms : ℕ
  pub max_channels : ℕ
  pub default_read_lines : ℕ
  pub max_read_lines : ℕ
  pub max_read_bytes : ℕ

abbrev pub hard_max_read_lines : ℕ
hard_max_read_lines = 5000

abbrev pub hard_max_read_bytes : ℕ
hard_max_read_bytes = 1048576

-- An integer between 1 and the maximum.
unfoldable pub bounded_positive : Number → ℕ → Result ℕ
bounded_positive other maximum = thrown (plain invalid_argument)
bounded_positive (natural n) maximum =
    if not (leb 1 n && leb n maximum) then thrown (plain invalid_argument) else ok n

-- A setting that JavaScript counts as true.
abbrev pub set_text : Option Text → Option Text
set_text none = none
set_text (some s) = if is_empty s then none else some s

abbrev pub is_set : Option Text → Bool
is_set none = false
is_set (some s) = not (is_empty s)

unfoldable pub resolve_config : TmuxBackendConfig → Result ResolvedTmuxBackendConfig
resolve_config config = do
  require (not (is_set config.socket_name && is_set config.socket_path)) (plain invalid_argument)
  max_read_lines ←
      bounded_positive (or_default config.max_read_lines (natural 1000)) hard_max_read_lines
  max_read_bytes ←
      bounded_positive (or_default config.max_read_bytes (natural (256 * 1024))) hard_max_read_bytes
  default_read_lines ←
      bounded_positive (or_default config.default_read_lines (natural (min 200 max_read_lines)))
        max_read_lines
  timeout_ms ← bounded_positive (or_default config.timeout_ms (natural 3000)) 60000
  max_channels ← bounded_positive (or_default config.max_channels (natural 256)) 5000
  ok (record {
    tmux_executable = or_default config.tmux_executable (codes "tmux");
    socket_name = set_text config.socket_name;
    socket_path = set_text config.socket_path;
    allowed_sessions = config.allowed_sessions;
    timeout_ms = timeout_ms;
    max_channels = max_channels;
    default_read_lines = default_read_lines;
    max_read_lines = max_read_lines;
    max_read_bytes = max_read_bytes;
  })

pub scope_key : ResolvedTmuxBackendConfig → Text
scope_key config = elim config.socket_path [
  | some path ↦ codes "socket-path:" ++ path
  | none ↦ elim config.socket_name [
    | some name ↦ codes "socket-name:" ++ name
    | none ↦ codes "default-server"
  ]
]

pub scope_args : ResolvedTmuxBackendConfig → List Text
scope_args config = elim config.socket_path [
  | some path ↦ codes "-u" ∷ codes "-S" ∷ path ∷ []
  | none ↦ elim config.socket_name [
    | some name ↦ codes "-u" ∷ codes "-L" ∷ name ∷ []
    | none ↦ codes "-u" ∷ []
  ]
]

unfoldable pub is_session_allowed : ResolvedTmuxBackendConfig → Text → Bool
is_session_allowed config session_name = elim config.allowed_sessions [
  | none ↦ true
  | some names ↦ any (λ n. text_eq n session_name) names
]

abbrev IsBetween : ℕ → ℕ → Type 0
IsBetween n maximum = (1 ≤ n) × (n ≤ maximum)

-- The limits that every accepted configuration keeps.
pub record IsResolved (config : ResolvedTmuxBackendConfig) : Type 0 where
  pub max_read_lines : IsBetween config.max_read_lines hard_max_read_lines
  pub max_read_bytes : IsBetween config.max_read_bytes hard_max_read_bytes
  pub default_read_lines : IsBetween config.default_read_lines config.max_read_lines
  pub timeout_ms : IsBetween config.timeout_ms 60000
  pub max_channels : IsBetween config.max_channels 5000

bounded_positive-IsBetween :
    (value : Number) (maximum n : ℕ) → bounded_positive value maximum ≡ ok n → IsBetween n maximum
unfolding bounded_positive
bounded_positive-IsBetween other maximum n h = absurd (cc h)
bounded_positive-IsBetween (natural m) maximum n h =
    if-elim (λ o. o ≡ ok n → IsBetween n maximum) (not (leb 1 m && leb m maximum)) _ _
      (λ _ e. absurd (cc e)) (λ b e. let same : m ≡ n = ok-inj e in ground (arith, b, same)) h

-- A configuration is accepted only with its limits in range, the default number of lines within the
-- largest, and not with both a socket path and a socket name.
pub resolve_config-IsResolved :
    (config : TmuxBackendConfig) (resolved : ResolvedTmuxBackendConfig)
    → resolve_config config ≡ ok resolved
    → IsResolved resolved × ((is_set config.socket_name && is_set config.socket_path) ≡ false)
unfolding resolve_config
resolve_config-IsResolved config resolved h =
    let (one, h₁) =
      require-eq-ok (not (is_set config.socket_name && is_set config.socket_path)) _ _ h in
    let (lines, b_lines, h₂) =
      >>=-eq-ok
        (bounded_positive (or_default config.max_read_lines (natural 1000)) hard_max_read_lines) _
        h₁ in
    let (bytes, b_bytes, h₃) =
      >>=-eq-ok
        (bounded_positive (or_default config.max_read_bytes (natural (256 * 1024)))
          hard_max_read_bytes)
        _ h₂ in
    let (default, b_default, h₄) =
      >>=-eq-ok
        (bounded_positive (or_default config.default_read_lines (natural (min 200 lines))) lines) _
        h₃ in
    let (timeout, b_timeout, h₅) =
      >>=-eq-ok (bounded_positive (or_default config.timeout_ms (natural 3000)) 60000) _ h₄ in
    let (channels, b_channels, h₆) =
      >>=-eq-ok (bounded_positive (or_default config.max_channels (natural 256)) 5000) _ h₅ in
    (
      subst IsResolved (ok-inj h₆) (record {
        max_read_lines = bounded_positive-IsBetween _ _ _ b_lines;
        max_read_bytes = bounded_positive-IsBetween _ _ _ b_bytes;
        default_read_lines = bounded_positive-IsBetween _ _ _ b_default;
        timeout_ms = bounded_positive-IsBetween _ _ _ b_timeout;
        max_channels = bounded_positive-IsBetween _ _ _ b_channels;
      }),
      ground (arith, one),
    )

-- ===== src/Console/Tmux.antt =====
-- What console/src/session-lifecycle.ts and console/src/terminal-attach.ts share: the pattern of a
-- session name, the scope read from TMUX_ALLOWED_SESSIONS and the socket arguments.
use agent_runtime_mcp.Base.{
  ℕ, Bool, not, ◌&&◌, ◌||◌, Option, List, [], ◌∷◌, map, Text, text_eq, is_empty, length, every, any,
  filter, ltb, leb, ◌==◌, is_digit, split, codes, or_default, if◌then◌else◌,
}

-- The variables whose names begin with TMUX_ that the two adapters read.
pub record TmuxEnv : Type 0 where
  pub socket_path : Option Text
  pub socket_name : Option Text
  pub allowed_sessions : Option Text

abbrev pub is_name_char : ℕ → Bool
is_name_char c =
    (leb b'A' c && leb c b'Z') || (leb b'a' c && leb c b'z') || is_digit c || c == b'_' || c == b'-'

-- `SESSION_NAME_RE`: `/^[A-Za-z0-9_-]{1,64}$/`
abbrev pub is_session_name : Text → Bool
is_session_name name = leb 1 (length name) && leb (length name) 64 && every is_name_char name

-- The characters that `trim` takes off.
abbrev pub is_space : ℕ → Bool
is_space c =
    (leb 9 c && leb c 13)
    || c == 32
    || c == 0xa0
    || c == 0x1680
    || (leb 0x2000 c && leb c 0x200a)
    || c == 0x2028
    || c == 0x2029
    || c == 0x202f
    || c == 0x205f
    || c == 0x3000
    || c == 0xfeff

unfoldable pub trim_start : Text → Text
trim_start [] = []
trim_start (c ∷ s) = let rest = trim_start s in if is_space c then rest else c ∷ s

unfoldable pub trim_end : Text → Text
trim_end [] = []
trim_end (c ∷ s) = elim (trim_end s) [ [] ↦ if is_space c then [] else c ∷ [] | d ∷ t ↦ c ∷ d ∷ t ]

unfoldable pub trim : Text → Text
unfolding trim_start trim_end
trim s = trim_end (trim_start s)

-- `(TMUX_ALLOWED_SESSIONS ?? '').split(',').map(trim).filter(Boolean)`
pub scope_of : TmuxEnv → List Text
scope_of env =
    filter (λ name. not (is_empty name))
      (map trim (split b',' (or_default env.allowed_sessions [])))

abbrev pub includes : List Text → Text → Bool
includes names name = any (λ n. text_eq n name) names

-- `allowedSessions.length > 0 && !allowedSessions.includes(name)`
abbrev pub is_out_of_scope : List Text → Text → Bool
is_out_of_scope allowed_sessions name =
    ltb 0 (length allowed_sessions) && not (includes allowed_sessions name)

-- An empty variable counts as unset.
pub socket_args_of : TmuxEnv → List Text
socket_args_of env =
    if not (is_empty (or_default env.socket_path []))
    then codes "-S" ∷ or_default env.socket_path [] ∷ []
    else if not (is_empty (or_default env.socket_name []))
    then codes "-L" ∷ or_default env.socket_name [] ∷ []
    else []

-- ===== src/Console/Config/Ranges.antt =====
-- console/src/config.ts: the ranges of what is read, and the sessions that are protected.
use agent_runtime_mcp.Base.{
  ℕ, ◌≤◌, ◌*◌, not, ◌||◌, Option, none, some, [], Text, codes, value_from, ltb, or_default, if-elim,
  some-inj, ◌≡◌, refl, subst, arith,
}
use agent_runtime_mcp.Console.Tmux.{trim}
use agent_runtime_mcp.Console.Config.{
  ◌>>=◌, Env, get, is_blank, is_digits, bounded_int, parse_port, parse_request_timeout,
  parse_enabled_flag, History, ConsoleConfig, load_history, load_config,
}

some-then :
    {A B P : Type 0} (m : Option A) (f : A → Option B) {y : B}
    → (m >>= f) ≡ some y
    → ((a : A) → m ≡ some a → f a ≡ some y → P)
    → P
some-then none f h k = absurd (cc h)
some-then (some a) f h k = k a refl h

abbrev IsIn : ℕ → ℕ → ℕ → Type 0
IsIn min max n = (min ≤ n) × (n ≤ max)

bounded_int-IsIn :
    (raw : Option Text) (fallback min max n : ℕ)
    → min ≤ fallback
    → fallback ≤ max
    → bounded_int raw fallback min max ≡ some n
    → IsIn min max n
unfolding bounded_int
bounded_int-IsIn raw fallback min max n low high h =
    if-elim Gives (is_blank raw) _ _ (λ _ e. subst (IsIn min max) (some-inj e) (low, high))
      (λ _.
        if-elim Gives (not (is_digits text)) _ _ (λ _ e. absurd (cc e))
          (λ _.
            if-elim Gives (ltb value min || ltb max value) _ _ (λ _ e. absurd (cc e))
              (λ b e. subst (IsIn min max) (some-inj e) (ground (arith, b)))))
      h
  where
    text : Text
    text = trim (or_default raw [])

    value : ℕ
    value = value_from 10 0 text

    Gives : Option ℕ → Type 0
    Gives o = o ≡ some n → IsIn min max n

bounded_int-then :
    {B P : Type 0} (raw : Option Text) (fallback min max : ℕ) (f : ℕ → Option B) {y : B}
    → min ≤ fallback
    → fallback ≤ max
    → (bounded_int raw fallback min max >>= f) ≡ some y
    → ((n : ℕ) → IsIn min max n → f n ≡ some y → P)
    → P
bounded_int-then raw fallback min max f low high h k =
    some-then (bounded_int raw fallback min max) f h
      λ n e rest. k n (bounded_int-IsIn raw fallback min max n low high e) rest

parse_port-IsIn : (raw : Option Text) (n : ℕ) → parse_port raw ≡ some n → IsIn 1 65535 n
unfolding parse_port
parse_port-IsIn raw n h =
    bounded_int-IsIn raw 8080 1 65535 n (omega arith) (omega arith) (unfold bounded_int in h)

parse_request_timeout-IsIn :
    (raw : Option Text) (n : ℕ) → parse_request_timeout raw ≡ some n → IsIn 1 120000 n
unfolding parse_request_timeout
parse_request_timeout-IsIn raw n h =
    bounded_int-IsIn raw 10000 1 120000 n (omega arith) (omega arith) (unfold bounded_int in h)

-- What the documentation of the settings promises.
pub record IsHistory (h : History) : Type 0 where
  pub max_lines : IsIn 10 100000 h.max_lines
  pub max_bytes : IsIn 4096 (64 * 1024 * 1024) h.max_bytes
  pub max_observed_channels : IsIn 1 8 h.max_observed_channels
  pub observe_idle_ms : IsIn 250 60000 h.observe_idle_ms
  pub observe_timeout_ms : IsIn 100 60000 h.observe_timeout_ms
  pub observe_busy_timeout_ms : IsIn 100 5000 h.observe_busy_timeout_ms
  pub poll_ms : IsIn 500 60000 h.poll_ms
  pub tail_lines : IsIn 10 2000 h.tail_lines
  pub tail_bytes : IsIn 4096 (1024 * 1024) h.tail_bytes

load_history-IsHistory : (env : Env) (h : History) → load_history env ≡ some h → IsHistory h
unfolding load_history
load_history-IsHistory env h e₀ =
    bounded_int-then (get env (codes "CONSOLE_HISTORY_MAX_LINES")) 5000 10 100000 _ (omega arith)
      (omega arith) e₀
      λ n₁ r₁ e₁.
        bounded_int-then (get env (codes "CONSOLE_HISTORY_MAX_BYTES")) (2 * 1024 * 1024) 4096
          (64 * 1024 * 1024) _ (omega arith) (omega arith) e₁
          λ n₂ r₂ e₂.
            bounded_int-then (get env (codes "CONSOLE_HISTORY_MAX_CHANNELS")) 4 1 8 _ (omega arith)
              (omega arith) e₂
              λ n₃ r₃ e₃.
                bounded_int-then (get env (codes "CONSOLE_OBSERVE_IDLE_MS")) 1000 250 60000 _
                  (omega arith) (omega arith) e₃
                  λ n₄ r₄ e₄.
                    bounded_int-then (get env (codes "CONSOLE_OBSERVE_TIMEOUT_MS")) 15000 100 60000
                      _ (omega arith) (omega arith) e₄
                      λ n₅ r₅ e₅.
                        bounded_int-then (get env (codes "CONSOLE_OBSERVE_BUSY_TIMEOUT_MS")) 600 100
                          5000 _ (omega arith) (omega arith) e₅
                          λ n₆ r₆ e₆.
                            bounded_int-then (get env (codes "CONSOLE_OBSERVE_POLL_MS")) 2500 500
                              60000 _ (omega arith) (omega arith) e₆
                              λ n₇ r₇ e₇.
                                bounded_int-then (get env (codes "CONSOLE_TAIL_LINES")) 400 10 2000
                                  _ (omega arith) (omega arith) e₇
                                  λ n₈ r₈ e₈.
                                    bounded_int-then (get env (codes "CONSOLE_TAIL_BYTES"))
                                      (256 * 1024) 4096 (1024 * 1024) _ (omega arith) (omega arith)
                                      e₈
                                      λ n₉ r₉ e₉. subst IsHistory (some-inj e₉) (record {
                                        max_lines = r₁;
                                        max_bytes = r₂;
                                        max_observed_channels = r₃;
                                        observe_idle_ms = r₄;
                                        observe_timeout_ms = r₅;
                                        observe_busy_timeout_ms = r₆;
                                        poll_ms = r₇;
                                        tail_lines = r₈;
                                        tail_bytes = r₉;
                                      })

pub record IsLoaded (config : ConsoleConfig) : Type 0 where
  pub port : IsIn 1 65535 config.port
  pub request_timeout_ms : IsIn 1 120000 config.request_timeout_ms
  pub history : IsHistory config.history
  pub max_attach : IsIn 1 16 config.max_attach

-- Whatever the environment is, a configuration that is loaded has every number in its range.
pub load_config-IsLoaded :
    (env : Env) (config : ConsoleConfig) → load_config env ≡ some config → IsLoaded config
unfolding load_config
load_config-IsLoaded env config e₀ =
    some-then (parse_port (get env (codes "CONSOLE_PORT"))) _ e₀ λ port a₁ e₁.
      some-then (parse_request_timeout (get env (codes "CONSOLE_MCP_REQUEST_TIMEOUT_MS"))) _ e₁
        λ ms a₂ e₂. some-then (load_history env) _ e₂ λ history a₃ e₃.
          some-then (parse_enabled_flag (get env (codes "CONSOLE_LIFECYCLE_ENABLED"))) _ e₃
            λ lifecycle a₄ e₄.
              some-then (parse_enabled_flag (get env (codes "CONSOLE_TERMINAL_ENABLED"))) _ e₄
                λ terminal a₅ e₅.
                  bounded_int-then (get env (codes "CONSOLE_MAX_ATTACH")) 4 1 16 _ (omega arith)
                    (omega arith) e₅
                    λ max a₆ e₆. subst IsLoaded (some-inj e₆) (record {
                      port = parse_port-IsIn (get env (codes "CONSOLE_PORT")) port a₁;
                      request_timeout_ms =
                          parse_request_timeout-IsIn
                            (get env (codes "CONSOLE_MCP_REQUEST_TIMEOUT_MS")) ms a₂;
                      history = load_history-IsHistory env history a₃;
                      max_attach = a₆;
                    })

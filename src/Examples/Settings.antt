-- ===== src/Examples/Settings.antt =====
-- Witnesses for console/src/config.ts, console/src/events.ts and src/input.ts.
use agent_runtime_mcp.Base.{
  false, not, ◌&&◌, ◌||◌, some, List, [], ◌∷◌, text_eq, codes, value_from, starts_with, split,
  or_default, ◌≡◌, ◌↔◌, refl,
}
use agent_runtime_mcp.Console.Tmux.{includes, trim, trim_start, trim_end}
use agent_runtime_mcp.Console.Config.{
  Env, ConsoleConfig, bounded_int, parse_port, parse_request_timeout, parse_enabled_flag,
  load_history, load_config, is_blank, parse_protected_sessions,
}
use agent_runtime_mcp.Console.Config.Ranges.{IsLoaded, load_config-IsLoaded}
use agent_runtime_mcp.Console.Config.Protected.{names_session, parse_protected_sessions-includes}
use agent_runtime_mcp.Console.Events.{ConsoleEvent}
use agent_runtime_mcp.Console.Events
use agent_runtime_mcp.Console.History.Entry.{delivered}
use agent_runtime_mcp.Console.Events.Listeners.{BusCall, subscribes, unsubscribes}
use agent_runtime_mcp.Runtime.Errors.{ok}
use agent_runtime_mcp.Runtime.Input.{validate_ordinary_text, IsOrdinary, validate_ordinary_text_iff}

abbrev env : Env
env = (codes "CONSOLE_PORT", codes "9000") ∷ (codes "TMUX_SOCKET_NAME", codes "s") ∷ []

abbrev loaded : ConsoleConfig
loaded = record {
  bind = codes "127.0.0.1";
  port = 9000;
  request_timeout_ms = 10000;
  tmux_env = (codes "TMUX_SOCKET_NAME", codes "s") ∷ [];
  history = record {
    max_lines = 5000;
    max_bytes = 2097152;
    max_observed_channels = 4;
    observe_idle_ms = 1000;
    observe_timeout_ms = 15000;
    observe_busy_timeout_ms = 600;
    poll_ms = 2500;
    tail_lines = 400;
    tail_bytes = 262144;
  };
  lifecycle_enabled = false;
  protected_sessions = codes "agent-runtime-keeper" ∷ [];
  terminal_enabled = false;
  max_attach = 4;
}

env-loaded : load_config env ≡ some loaded
unfolding load_config load_history parse_port parse_request_timeout parse_enabled_flag bounded_int
    parse_protected_sessions trim trim_start trim_end text_eq value_from starts_with
env-loaded = refl

load_config-IsLoaded_example : IsLoaded loaded
load_config-IsLoaded_example = load_config-IsLoaded env loaded env-loaded

parse_protected_sessions-includes_example :
    includes (parse_protected_sessions (some (codes "dev, ,ops"))) (codes "ops") ≡ (
      text_eq (codes "agent-runtime-keeper") (codes "ops")
      || (not (is_blank (some (codes "dev, ,ops")))
          && names_session (codes "ops") (split b',' (or_default (some (codes "dev, ,ops")) []))))
parse_protected_sessions-includes_example =
    parse_protected_sessions-includes (some (codes "dev, ,ops")) (codes "ops")

validate_ordinary_text_iff_example :
    (validate_ordinary_text (codes "a\tb") ≡ ok tt) ↔ IsOrdinary (codes "a\tb")
validate_ordinary_text_iff_example = validate_ordinary_text_iff (codes "a\tb")

abbrev one_control : ConsoleEvent
one_control = Events.control (codes "a") (codes "ENTER") (codes "t") delivered

abbrev bus_calls : List BusCall
bus_calls = subscribes 1 ∷ subscribes 2 ∷ subscribes 1 ∷ unsubscribes 2 ∷ []

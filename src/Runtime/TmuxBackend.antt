-- ===== src/Runtime/TmuxBackend.antt =====
-- src/tmux-backend.ts: the operations on a channel. The runner is a function that answers each command
-- from the commands before it, which are kept in the order in which they are run.
pub mod Commands
pub mod Utf8
pub mod Config
pub mod Panes
pub mod Reads
pub mod Sending
pub mod Writes
pub mod Listing
use agent_runtime_mcp.Base.{
  ℕ, zero, suc, ◌+◌, ◌-◌, ◌*◌, min, Bool, true, false, not, ◌&&◌, ◌||◌, Option, none, some, List,
  [], ◌∷◌, ◌++◌, map, Text, codes, is_empty, starts_with, byte_length, split, join, decimal,
  text_eq, ltb, leb, ◌==◌, length, take, drop, any, filter, find, or_default, if◌then◌else◌,
}
use agent_runtime_mcp.Runtime.Errors.{
  ChannelErrorCode, channel_not_found, backend_unavailable, backend_operation_failed, timeout,
  invalid_argument, text, flag, ChannelError, plain, Result, ok, thrown, require,
}
use agent_runtime_mcp.Runtime.Input.{
  TerminalControl, enter, interrupt, escape, validate_ordinary_text,
}
unfoldable pub use Commands.*
use Utf8.{take_last_utf8_bytes}
use Config.{ResolvedTmuxBackendConfig, scope_args, is_session_allowed, hard_max_read_bytes}
use Panes.{TmuxPane, parse_pane_lines, channel_id_for_pane, parse_channel_id}

pub record Backend : Type 0 where
  pub config : ResolvedTmuxBackendConfig
  pub fingerprint : Text
  pub is_linux : Bool

pub data Capability : Type 0 where
  read write_text_capability control observe : Capability

-- The kind of the backend and the state are constants, the locator is the identifier, and the metadata
-- is the pane.
pub record Channel : Type 0 where
  pub channel_id : Text
  pub capabilities : List Capability
  pub title : Option Text
  pub cwd : Option Text
  pub pane : TmuxPane

-- Without the time of the capture.
pub record ChannelRead : Type 0 where
  pub channel_id : Text
  pub text : Text
  pub truncated : Bool
  pub line_count : ℕ
  pub byte_count : ℕ

-- `splitCapturedLines`
abbrev pub without_final_newline : Text → Text
without_final_newline [] = []
without_final_newline (c ∷ []) = if c == 0x0a then [] else c ∷ []
without_final_newline (c ∷ d ∷ s) = c ∷ without_final_newline (d ∷ s)

unfoldable pub split_captured_lines : Text → List Text
split_captured_lines stdout =
    let trimmed = without_final_newline stdout in
    if is_empty trimmed then [] else split 0x0a trimmed

abbrev pub pane_format : Text
pane_format =
    codes
      "#{pane_id}\t#{session_name}\t#{window_id}\t#{window_index}\t#{pane_index}\t#{pane_title}\t#{pane_current_path}"

module _ (b : Backend) (runner : Runner) where
  abbrev pub command : List Text → ℕ → Option Text → Command
  command args max_buffer_bytes stdin = record {
    args = scope_args b.config ++ args;
    max_buffer_bytes = max_buffer_bytes;
    stdin = stdin;
  }

  unfoldable pub run_tmux : Command → Text → Bool → Proc Text
  run_tmux c operation terminal_mutation log = (
    log ++ c ∷ [],
    elim (runner log c) [
      | answered stdout ↦ ok stdout
      | failed failure ↦ thrown (classify_tmux_failure failure operation terminal_mutation)
    ],
  )

  abbrev pub list_panes : Command
  list_panes =
      command (codes "list-panes" ∷ codes "-a" ∷ codes "-F" ∷ pane_format ∷ []) (2 * 1024 * 1024)
        none

  unfoldable pub visible_panes : Text → Result (List TmuxPane)
  visible_panes stdout =
      elim (parse_pane_lines (filter (λ line. not (is_empty line)) (split 0x0a stdout))) [
        | ok panes ↦ ok (
            take b.config.max_channels
              (filter (λ (p : TmuxPane). is_session_allowed b.config p.session_name) panes))
        | thrown e ↦ thrown e
      ]

  unfoldable pub list_visible_panes : Proc (List TmuxPane)
  list_visible_panes =
      run_tmux list_panes (codes "list-panes") false >>= λ stdout. lift (visible_panes stdout)

  unfoldable pub to_channel : TmuxPane → Result Channel
  to_channel pane = elim (channel_id_for_pane b.fingerprint pane.pane_id) [
    | ok id ↦ ok (record {
      channel_id = id;
      capabilities =
          read ∷ write_text_capability ∷ control ∷ (if b.is_linux then observe ∷ [] else []);
      title = pane.title;
      cwd = pane.cwd;
      pane = pane;
    })
    | thrown e ↦ thrown e
  ]

  abbrev pub to_channels : List TmuxPane → Result (List Channel)
  to_channels [] = ok []
  to_channels (p ∷ ps) = elim (to_channel p) [
    | ok c ↦ elim (to_channels ps) [ ok cs ↦ ok (c ∷ cs) | thrown e ↦ thrown e ]
    | thrown e ↦ thrown e
  ]

  unfoldable pub list_channels : Proc (List Channel)
  list_channels = list_visible_panes >>= λ panes. lift (to_channels panes)

  unfoldable pub find_channel : Text → Text → List TmuxPane → Result Channel
  find_channel channel_id pane_id panes =
      elim (find (λ (p : TmuxPane). text_eq p.pane_id pane_id) panes) [
        | some pane ↦ to_channel pane
        | none ↦ thrown (record {
          code = channel_not_found;
          details = (codes "channel_id", text channel_id) ∷ [];
        })
      ]

  unfoldable pub get_channel : Text → Proc Channel
  get_channel channel_id = do
    pane_id ← lift (parse_channel_id b.fingerprint channel_id)
    panes ← list_visible_panes
    lift (find_channel channel_id pane_id panes)

  -- `validateReadBounds`, on numbers that are integers.
  unfoldable pub validate_read_bounds : ℕ → ℕ → Result (Unit {0})
  validate_read_bounds lines bytes =
      if not (leb 1 lines && leb lines b.config.max_read_lines)
      then thrown (plain invalid_argument)
      else if not (leb 1 bytes && leb bytes b.config.max_read_bytes)
      then thrown (plain invalid_argument)
      else ok tt

  -- What `readChannel` makes of the output of tmux.
  unfoldable pub read_of : Text → ℕ → ℕ → Text → ChannelRead
  read_of channel_id lines bytes stdout =
      let captured = split_captured_lines stdout in
      let over = ltb lines (length captured) in
      let whole =
        join (0x0a ∷ []) (if over then drop (length captured - lines) captured else captured) in
      let bounded = take_last_utf8_bytes whole bytes in
      let kept = if bounded.truncated then bounded.text else whole in
      record {
        channel_id = channel_id;
        text = kept;
        truncated = over || bounded.truncated;
        line_count = if length kept == 0 then 0 else length (split 0x0a kept);
        byte_count = byte_length kept;
      }

  abbrev pub capture_pane : Text → ℕ → Command
  capture_pane pane_id lines =
      command
        (codes "capture-pane"
          ∷ codes "-p"
          ∷ codes "-t"
          ∷ pane_id
          ∷ codes "-S"
          ∷ (b'-' ∷ decimal (min (lines + 1) (b.config.max_read_lines + 1)))
          ∷ [])
        (min (hard_max_read_bytes * 2) (b.config.max_read_bytes * 2 + 64 * 1024)) none

  unfoldable pub read_channel : Text → Option ℕ → Option ℕ → Proc ChannelRead
  read_channel channel_id lines_option bytes_option =
      let lines = or_default lines_option b.config.default_read_lines in
      let bytes = or_default bytes_option b.config.max_read_bytes in
      lift (validate_read_bounds lines bytes) >>= λ _.
      lift (parse_channel_id b.fingerprint channel_id) >>= λ pane_id.
      get_channel channel_id >>= λ _.
      run_tmux (capture_pane pane_id lines) (codes "capture-pane") false >>= λ stdout.
      lift (ok (read_of channel_id lines bytes stdout))

  -- `try { m } catch (error) { … }`
  abbrev pub catch : {A : Type 0} → Proc A → (ChannelError → Proc A) → Proc A
  catch m handler log = elim (m log).1 [ ok a ↦ ((m log).0, ok a) | thrown e ↦ handler e (m log).0 ]

  -- The code of the error where the backend is not available.
  pub health : Proc (Option ChannelErrorCode)
  health =
      catch
        (run_tmux
            (command (codes "list-panes" ∷ codes "-a" ∷ codes "-F" ∷ codes "#{pane_id}" ∷ [])
              (256 * 1024) none)
            (codes "health") false
          >>= λ _. lift (ok none))
        (λ e. lift (ok (some e.code)))

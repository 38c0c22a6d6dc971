-- ===== src/Runtime/TmuxBackend/Sending.antt =====
-- src/tmux-backend.ts: the operations that send something to a pane, `writeText` and `sendControl`.
use agent_runtime_mcp.Base.{
  ◌*◌, Bool, true, false, none, some, [], ◌∷◌, ◌++◌, Text, codes, if◌then◌else◌,
}
use agent_runtime_mcp.Runtime.Errors.{
  ChannelErrorCode, timeout, text, flag, ChannelError, ok, thrown,
}
use agent_runtime_mcp.Runtime.Input.{
  TerminalControl, enter, interrupt, escape, validate_ordinary_text,
}
use agent_runtime_mcp.Runtime.TmuxBackend.{Backend, command, run_tmux, get_channel, catch}
use agent_runtime_mcp.Runtime.TmuxBackend.Commands.{Runner, Proc, Command, lift, ◌>>=◌, ◌>>◌}
use agent_runtime_mcp.Runtime.TmuxBackend.Panes.{parse_channel_id}

-- The key that tmux sends for a control, and the name of the operation.
abbrev pub control_key : TerminalControl → Text
control_key enter = codes "Enter"
control_key interrupt = codes "C-c"
control_key escape = codes "Escape"

abbrev pub control_operation : TerminalControl → Text
control_operation enter = codes "send-control-enter"
control_operation interrupt = codes "send-control-interrupt"
control_operation escape = codes "send-control-escape"

module _ (b : Backend) (runner : Runner) where
  abbrev pub send_keys : Text → TerminalControl → Command
  send_keys pane_id c =
      command b runner (codes "send-keys" ∷ codes "-t" ∷ pane_id ∷ control_key c ∷ []) (64 * 1024)
        none

  unfoldable pub send_control_to_pane : Text → TerminalControl → Proc (Unit {0})
  send_control_to_pane pane_id c =
      run_tmux b runner (send_keys pane_id c) (control_operation c) true >>= λ _. lift (ok tt)

  pub send_control : Text → TerminalControl → Proc (Unit {0})
  send_control channel_id c = do
    pane_id ← lift (parse_channel_id b.fingerprint channel_id)
    get_channel b runner channel_id
    send_control_to_pane pane_id c

  abbrev pub load_buffer : Text → Text → Command
  load_buffer buffer_name s =
      command b runner (codes "load-buffer" ∷ codes "-b" ∷ buffer_name ∷ codes "-" ∷ []) (64 * 1024)
        (some s)

  abbrev pub paste_buffer : Text → Text → Command
  paste_buffer buffer_name pane_id =
      command b runner
        (codes "paste-buffer"
          ∷ codes "-r"
          ∷ codes "-d"
          ∷ codes "-b"
          ∷ buffer_name
          ∷ codes "-t"
          ∷ pane_id
          ∷ [])
        (64 * 1024) none

  abbrev pub delete_buffer : Text → Command
  delete_buffer buffer_name =
      command b runner (codes "delete-buffer" ∷ codes "-b" ∷ buffer_name ∷ []) (64 * 1024) none

  unfoldable pub cleanup_buffer : Text → Proc (Unit {0})
  cleanup_buffer buffer_name =
      catch b runner
        (run_tmux b runner (delete_buffer buffer_name) (codes "delete-buffer") false >>= λ _.
          lift (ok tt))
        (λ _. lift (ok tt))

  unfoldable pub deliver : Text → Text → Text → Proc (Unit {0})
  deliver buffer_name pane_id s =
      catch b runner
        (run_tmux b runner (load_buffer buffer_name s) (codes "load-buffer") false >>= λ _.
          run_tmux b runner (paste_buffer buffer_name pane_id) (codes "paste-buffer") true >>= λ _.
          lift (ok tt))
        (λ e. cleanup_buffer buffer_name >>= λ _. lift (thrown e))

  abbrev pub is_timeout : ChannelErrorCode → Bool
  is_timeout timeout = true
  is_timeout code = false

  -- The error of a text that is delivered and whose submission fails.
  pub submit_error : ChannelError → ChannelError
  submit_error e = record {
    code = e.code;
    details =
        e.details
        ++ (codes "text_delivered", flag true)
          ∷ (
            codes "submit_outcome",
            text (if is_timeout e.code then codes "unknown" else codes "failed"),
          )
          ∷ [];
  }

  unfoldable pub submit_text : Text → Bool → Proc Bool
  submit_text pane_id false = lift (ok false)
  submit_text pane_id true =
      catch b runner (send_control_to_pane pane_id enter) (λ e. lift (thrown (submit_error e)))
      >>= λ _. lift (ok true)

  -- The name of the buffer ends in the process id and a random UUID, `unique`.
  unfoldable pub write_text : (unique channel_id s : Text) (submit : Bool) → Proc Bool
  write_text unique channel_id s submit = do
    lift (validate_ordinary_text s)
    pane_id ← lift (parse_channel_id b.fingerprint channel_id)
    get_channel b runner channel_id
    deliver (codes "agent-runtime-mcp-write-" ++ unique) pane_id s
    submit_text pane_id submit

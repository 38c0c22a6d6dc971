-- ===== src/Examples/Attaches.antt =====
-- Witnesses for console/src/terminal-attach.ts.
use agent_runtime_mcp.Base.{true, false, none, some, List, [], ◌∷◌, All, codes, negsuc}
use agent_runtime_mcp.Console.Tmux.{TmuxEnv, scope_of, socket_args_of}
use agent_runtime_mcp.Console.TerminalAttach.{nan, whole, absent, text, AttachInput, new_attach}
use agent_runtime_mcp.Console.TerminalAttach.Slots.{
  AttachCall, reserves, commits, attaches, disposes_terminal, run, IsCounted,
  run-new_attach-IsCounted,
}
use agent_runtime_mcp.Console.TerminalAttach.Spawns.{IsProperCall, run-new_attach-IsProperCall}

abbrev scoped_env : TmuxEnv
scoped_env = record {
  socket_path = none;
  socket_name = some (codes "sock");
  allowed_sessions = some (codes "main, dev");
}

abbrev viewer : AttachInput
viewer = record {
  tmux = record {
    session_name = text (codes "dev");
    window_id = text (codes "@3");
    pane_id = absent;
  };
  cols = nan;
  rows = whole (negsuc 4);
  actor = codes "127.0.0.1";
}

abbrev attach_calls : List AttachCall
attach_calls =
    reserves viewer
    ∷ reserves viewer
    ∷ reserves viewer
    ∷ commits true 0
    ∷ commits true 0
    ∷ commits false 1
    ∷ attaches true viewer
    ∷ disposes_terminal 0
    ∷ []

run-new_attach-IsCounted_example : IsCounted (run attach_calls (new_attach true 2 scoped_env))
run-new_attach-IsCounted_example = run-new_attach-IsCounted true 2 scoped_env attach_calls

run-new_attach-IsProperCall_example :
    All
      (IsProperCall (scope_of scoped_env) (socket_args_of scoped_env))
      (run attach_calls (new_attach true 2 scoped_env)).calls
run-new_attach-IsProperCall_example = run-new_attach-IsProperCall true 2 scoped_env attach_calls

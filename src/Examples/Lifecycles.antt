-- ===== src/Examples/Lifecycles.antt =====
-- Witnesses for console/src/session-lifecycle.ts.
use agent_runtime_mcp.Base.{
  true, false, Option, none, some, List, [], ◌∷◌, map, All, Text, codes, ◌≡◌,
}
use agent_runtime_mcp.Console.SessionLifecycle.{Settings, Audit}
use agent_runtime_mcp.Console.SessionLifecycle.Runs.{
  LifecycleCall, creates, kills, new_trace, result_of, call_all, IsAdmitted, call_all-IsAdmitted,
}

abbrev settings : Settings
settings = record {
  enabled = true;
  profiles = record { label = codes "sh"; argv = codes "sh" ∷ codes "{cwd}" ∷ [] } ∷ [];
  roots = codes "/work" ∷ [];
  protected_sessions = codes "keeper" ∷ [];
  tmux_env = record { socket_path = none; socket_name = none; allowed_sessions = none };
}

-- A file system without symbolic links.
abbrev same_path : Text → Text
same_path path = path

abbrev real_path : Text → Option Text
real_path path = some path

abbrev lifecycle_calls : List LifecycleCall
lifecycle_calls =
    creates true (record {
      name = codes "job";
      cwd = codes "/work/a";
      profile = codes "sh";
      actor = codes "::1";
    })
    ∷ creates true (record {
      name = codes "job";
      cwd = codes "/etc";
      profile = codes "sh";
      actor = codes "::1";
    })
    ∷ kills true (record { name = codes "keeper"; actor = codes "::1" })
    ∷ kills false (record { name = codes "job"; actor = codes "::1" })
    ∷ []

call_all-IsAdmitted_example :
    All
      (IsAdmitted same_path real_path settings)
      (call_all same_path real_path settings lifecycle_calls new_trace).0.runs
    × (map
          (λ (a : Audit). a.result)
          (call_all same_path real_path settings lifecycle_calls new_trace).0.audits
        ≡ map result_of (call_all same_path real_path settings lifecycle_calls new_trace).1)
call_all-IsAdmitted_example = call_all-IsAdmitted same_path real_path settings lifecycle_calls

-- ===== src/Examples/Projections.antt =====
-- Witnesses for console/src/projection.ts.
use agent_runtime_mcp.Base.{true, false, none, some, [], ◌∷◌, ◌++◌, All, codes, pos, ◌≡◌}
use agent_runtime_mcp.Console.History.Entry.{
  delivered, opened, UserTurn, EarlierOutput, earlier_output, output_block, control, HistoryEntry,
}
use agent_runtime_mcp.Console.Projection.{Turn, project_conversation}
use agent_runtime_mcp.Console.Projection.Segments.{user_entry, project_conversation-append}
use agent_runtime_mcp.Console.Projection.Conserves.{
  collect, gather, block_of, control_of, user_of, users, project_conversation-conserves,
}
use agent_runtime_mcp.Console.Projection.Settled.{
  IsSettledRight, earlier_entry, project_conversation-IsSettledRight, earlier_output-overwrites,
}

abbrev ask : UserTurn
ask = record { text = codes "ls"; submit = true; sent_at = []; transport_result = delivered }

abbrev old : EarlierOutput
old = record { text = codes "$"; truncated = false; observed_at = [] }

abbrev answer : HistoryEntry
answer = record {
  id = pos 3;
  body = output_block (record {
    state = opened;
    text = codes "ok";
    truncated = false;
    opened_at = [];
    closed_at = none;
  });
}

abbrev enter : HistoryEntry
enter = record {
  id = pos 4;
  body = control (record { control = codes "ENTER"; sent_at = []; transport_result = delivered });
}

abbrev late : HistoryEntry
late = record { id = pos 5; body = earlier_output old }

project_conversation-append_example :
    project_conversation ((answer ∷ []) ++ user_entry (pos 2) ask ∷ enter ∷ [])
    ≡ project_conversation (answer ∷ [])
      ++ project_conversation (user_entry (pos 2) ask ∷ enter ∷ [])
project_conversation-append_example =
    project_conversation-append (answer ∷ []) (pos 2) ask (enter ∷ [])

project_conversation-IsSettledRight_example :
    All IsSettledRight (project_conversation (user_entry (pos 2) ask ∷ answer ∷ enter ∷ []))
project_conversation-IsSettledRight_example =
    project_conversation-IsSettledRight (user_entry (pos 2) ask ∷ answer ∷ enter ∷ [])
      ((λ e. cc), ((λ e. cc), ((λ e. cc), tt)))

earlier_output-overwrites_example :
    (t : Turn) × (project_conversation (late ∷ answer ∷ earlier_entry (pos 6) old ∷ []) ≡ t ∷ [])
    × (t.earlier ≡ some (record { id = pos 6; body = old }))
earlier_output-overwrites_example =
    earlier_output-overwrites (late ∷ answer ∷ []) (pos 6) old ((λ u e. cc), ((λ u e. cc), tt))

project_conversation-conserves_example :
    (collect (λ t. t.blocks) (project_conversation (user_entry (pos 2) ask ∷ answer ∷ enter ∷ []))
      ≡ gather block_of (user_entry (pos 2) ask ∷ answer ∷ enter ∷ []))
    × (collect
          (λ t. t.controls)
          (project_conversation (user_entry (pos 2) ask ∷ answer ∷ enter ∷ []))
        ≡ gather control_of (user_entry (pos 2) ask ∷ answer ∷ enter ∷ []))
    × (collect users (project_conversation (user_entry (pos 2) ask ∷ answer ∷ enter ∷ []))
        ≡ gather user_of (user_entry (pos 2) ask ∷ answer ∷ enter ∷ []))
project_conversation-conserves_example =
    project_conversation-conserves (user_entry (pos 2) ask ∷ answer ∷ enter ∷ [])

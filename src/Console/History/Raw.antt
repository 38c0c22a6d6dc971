-- ===== src/Console/History/Raw.antt =====
-- console/src/history.ts: the raw transcript.
use agent_runtime_mcp.Base.{[], ◌∷◌, ◌++◌, map, Text, codes, decimal, join, if◌then◌else◌}
use agent_runtime_mcp.Console.History.Entry.{
  Body, earlier_output, output_block, user_turn, control, drop_marker, HistoryEntry,
}
use agent_runtime_mcp.Console.History.Ring.{RingSnapshot}

-- The part of the transcript that one entry gives.
abbrev pub raw_part : Body → Text
raw_part (drop_marker m) =
    codes "[… " ++ decimal m.dropped_lines ++ codes " earlier lines dropped from bounded history …]"
raw_part (earlier_output e) = e.text
raw_part (output_block b) = b.text
raw_part (user_turn u) =
    codes "\n>>> sent" ++ (if u.submit then [] else codes " (no enter)") ++ codes ": " ++ u.text
raw_part (control c) = codes "\n>>> control: " ++ c.control

pub format_raw_transcript : RingSnapshot → Text
format_raw_transcript s = join (b'\n' ∷ []) (map (λ (e : HistoryEntry). raw_part e.body) s.entries)

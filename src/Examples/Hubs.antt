-- ===== src/Examples/Hubs.antt =====
-- Witnesses for console/src/observer.ts.
use agent_runtime_mcp.Base.{true, none, List, [], ◌∷◌, Text, All, codes, ◌≡◌}
use agent_runtime_mcp.Console.Events
use agent_runtime_mcp.Console.History.Entry.{delivered}
use agent_runtime_mcp.Console.History.Ring.{RingOptions}
use agent_runtime_mcp.Console.HistoryHub.{default_options}
use agent_runtime_mcp.Console.HistoryHub.Blocks.{open_block, record_event}
use agent_runtime_mcp.Console.HistoryHub.Begun.{IsOrdered}
use agent_runtime_mcp.Console.HistoryHub.Capacity.{IsWithin, run-new_hub-IsWithin}
use agent_runtime_mcp.Console.HistoryHub.Manager.{
  HubCall, snapshots, watches, hears, loop_answers, fires, new_hub, run,
}
use agent_runtime_mcp.Console.HistoryHub.Requests.{GivenIn, run-new_hub-IsOrdered}
use agent_runtime_mcp.Console.HistoryHub.Turns.{record_event-IsShut-run}
use agent_runtime_mcp.Console.HistoryHub.OnlyCurrent.{IsShut}
use agent_runtime_mcp.Console.HistoryHub.{ChannelState}
use agent_runtime_mcp.Console.HistoryHub.Watched.{HasGoodRing}
use agent_runtime_mcp.Console.Json.{Members, nil, member, string, object}
use agent_runtime_mcp.Console.McpClient.Calls.{answered, failed, tool_error}

abbrev small_rings : RingOptions
small_rings = record { max_lines = none; max_bytes = none }

abbrev cursor_payload : Members
cursor_payload =
    member (codes "observation") (object (member (codes "cursor") (string (codes "c1")) nil)) nil

abbrev read_payload : Members
read_payload =
    member (codes "read") (object (member (codes "text") (string (codes "$ ls")) nil)) nil

abbrev idle_payload : Members
idle_payload = member (codes "reason") (string (codes "output_idle")) nil

abbrev later_payload : Members
later_payload =
    member (codes "read") (object (member (codes "text") (string (codes "$ ls\nfile")) nil)) nil

-- A viewer comes, the channel is observed and read, some output follows, and the server goes away.
abbrev one_view : List (Text × HubCall)
one_view =
    (codes "t1", watches (codes "a") 0)
    ∷ (codes "t2", loop_answers (codes "a") (answered cursor_payload))
    ∷ (codes "t3", loop_answers (codes "a") (answered read_payload))
    ∷ (codes "t4", loop_answers (codes "a") (answered idle_payload))
    ∷ (codes "t5", loop_answers (codes "a") (answered later_payload))
    ∷ (codes "t6", hears (Events.user_turn (codes "a") (codes "make") true (codes "t6") delivered))
    ∷ (codes "t7", snapshots (codes "b"))
    ∷ (codes "t8", loop_answers (codes "a") (failed (tool_error (codes "TIMEOUT"))))
    ∷ (codes "t9", fires (codes "a"))
    ∷ []

run-new_hub-IsOrdered_example :
    All
      (IsOrdered (GivenIn one_view))
      (run one_view (new_hub default_options small_rings 4 16)).channels
run-new_hub-IsOrdered_example = run-new_hub-IsOrdered default_options small_rings 4 16 one_view

run-new_hub-IsWithin_example :
    IsWithin 4 16 (run one_view (new_hub default_options small_rings 4 16))
    × All HasGoodRing (run one_view (new_hub default_options small_rings 4 16)).channels
run-new_hub-IsWithin_example = run-new_hub-IsWithin default_options small_rings 4 16 one_view

record_event-IsShut-run_example :
    All
      (λ (cs : ChannelState).
        let cs' =
          record_event
            (codes "t")
            (Events.user_turn (codes "a") (codes "x") true (codes "t") delivered)
            cs in
        All IsShut cs'.ring.entries × (open_block cs' ≡ none))
      (run one_view (new_hub default_options small_rings 4 16)).channels
record_event-IsShut-run_example =
    record_event-IsShut-run default_options small_rings 4 16 one_view (codes "t") (codes "a")
      (codes "x") true (codes "t") delivered

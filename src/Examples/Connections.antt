-- ===== src/Examples/Connections.antt =====
-- Witnesses for console/src/mcp-client.ts.
use agent_runtime_mcp.Base.{true, false, List, [], ◌∷◌}
use agent_runtime_mcp.Console.McpClient.{Options, ClientCall, ensures, ends, disconnects}

abbrev three_attempts : Options
three_attempts = record {
  reconnect_attempts = 3;
  reconnect_base_delay_ms = 250;
  reconnect_cooldown_ms = 5000;
}

-- Two callers ask, the second attempt works, and the connection is lost.
abbrev two_callers : List ClientCall
two_callers =
    ensures 10 ∷ ensures 20 ∷ ends 300 false ∷ ends 900 true ∷ disconnects ∷ ensures 1000 ∷ []

-- ===== src/Console/Events.antt =====
-- console/src/events.ts: the event bus. A listener is known by its number; whether it throws does not
-- matter to the bus, so its body is left out.
pub mod Listeners
use agent_runtime_mcp.Base.{
  ℕ, zero, suc, ◌+◌, ◌≤◌, Bool, true, false, not, Option, none, some, List, [], ◌∷◌, ◌++◌, map,
  Text, ltb, leb, ◌==◌, length, any, filter, if◌then◌else◌,
}
use agent_runtime_mcp.Console.History.Entry.{TransportResult}

pub data ConsoleEvent : Type 0 where
  user_turn :
      (channel_id text : Text) (submit : Bool) (sent_at : Text) → TransportResult → ConsoleEvent
  control : (channel_id control_name sent_at : Text) → TransportResult → ConsoleEvent

-- The listeners, and the calls of them in the order in which they are made.
pub record Bus : Type 0 where
  pub listeners : List ℕ
  pub deliveries : List (ℕ × ConsoleEvent)

abbrev pub max_listeners : ℕ
max_listeners = 32

abbrev pub new_bus : Bus
new_bus = record { listeners = []; deliveries = [] }

abbrev pub listens : ℕ → List ℕ → Bool
listens l = any (λ m. m == l)

-- `set.add(listener)`
abbrev pub add_listener : ℕ → List ℕ → List ℕ
add_listener l ls = if listens l ls then ls else ls ++ l ∷ []

-- False where the limit is reached, which throws.
pub subscribe : ℕ → Bus → Bus × Bool
subscribe l b =
    if leb max_listeners (length b.listeners)
    then (b, false)
    else (record b { listeners = add_listener l b.listeners }, true)

pub unsubscribe : ℕ → Bus → Bus
unsubscribe l b = record b { listeners = filter (λ m. not (m == l)) b.listeners }

unfoldable pub emit : ConsoleEvent → Bus → Bus
emit event b = record b { deliveries = b.deliveries ++ map (λ l. (l, event)) b.listeners }

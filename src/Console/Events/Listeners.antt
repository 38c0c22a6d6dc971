-- ===== src/Console/Events/Listeners.antt =====
-- console/src/events.ts: any use of one bus.
use agent_runtime_mcp.Base.{ℕ, ◌≤◌, false, List, [], ◌∷◌, ◌==◌, length, filter, ◌≡◌}
use agent_runtime_mcp.Console.Events.{
  ConsoleEvent, Bus, max_listeners, listens, subscribe, unsubscribe, emit,
}

pub data BusCall : Type 0 where
  subscribes : ℕ → BusCall
  unsubscribes : ℕ → BusCall
  emits : ConsoleEvent → BusCall

pub step : BusCall → Bus → Bus
step (subscribes l) b = (subscribe l b).0
step (unsubscribes l) b = unsubscribe l b
step (emits event) b = emit event b

pub run : List BusCall → Bus → Bus
run [] b = b
run (c ∷ cs) b = run cs (step c b)

-- No number stands twice.
abbrev pub IsUnique : List ℕ → Type 0
IsUnique [] = Unit
IsUnique (l ∷ ls) = (listens l ls ≡ false) × IsUnique ls

abbrev pub IsBus : Bus → Type 0
IsBus b = (length b.listeners ≤ max_listeners) × IsUnique b.listeners

-- How often an event was delivered to a listener, over all its events.
abbrev pub count_to : ℕ → List (ℕ × ConsoleEvent) → ℕ
count_to l ds = length (filter (λ (d : ℕ × ConsoleEvent). d.0 == l) ds)

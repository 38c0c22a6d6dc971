-- ===== src/Console/HistoryHub/Blocks.antt =====
-- console/src/observer.ts: the output blocks of a channel, the turns of the user, and the reads that `pull`
-- takes in.
use agent_runtime_mcp.Base.{
  ℤ, Bool, true, false, ◌||◌, Option, none, some, List, [], ◌∷◌, ◌++◌, Text, is_empty, codes,
  or_default, if◌then◌else◌,
}
use agent_runtime_mcp.Console.Events.{ConsoleEvent, add_listener}
use agent_runtime_mcp.Console.Events
use agent_runtime_mcp.Console.History.DiffTail.{diff_tail}
use agent_runtime_mcp.Console.History.Entry.{
  BlockState, OutputBlock, Body, earlier_output, output_block, user_turn, control, HistoryEntry,
}
use agent_runtime_mcp.Console.History.Ring.{push, get, update}
use agent_runtime_mcp.Console.Json.{Members, find_member, is_true, record_at, string_at}
use agent_runtime_mcp.Console.HistoryHub.{PullMode, ChannelState, broadcast, earlier, output}

-- An output block under its id.
abbrev pub as_block : HistoryEntry → Option (ℤ × OutputBlock)
as_block entry = elim entry.body [ output_block b ↦ some (entry.id, b) | _ ↦ none ]

unfoldable pub current_block : ChannelState → Option (ℤ × OutputBlock)
current_block cs = elim cs.current_block_id [
  | none ↦ none
  | some id ↦ elim (get id cs.ring) [ none ↦ none | some entry ↦ as_block entry ]
]

abbrev pub is_closed : BlockState → Bool
is_closed s = elim s [ BlockState.closed ↦ true | _ ↦ false ]

-- A mutation of the entry where it is an output block.
abbrev pub in_block : (OutputBlock → OutputBlock) → HistoryEntry → HistoryEntry
in_block f entry = elim entry.body [
  | output_block b ↦ record { id = entry.id; body = output_block (f b) }
  | _ ↦ entry
]

abbrev pub close_block : BlockState → (now : Text) → OutputBlock → OutputBlock
close_block s now b = record b {
  state = s;
  closed_at = if is_closed s then some now else b.closed_at;
}

abbrev pub updates_of : Option HistoryEntry → List HistoryEntry
updates_of none = []
updates_of (some entry) = entry ∷ []

-- The current block, if it is not closed.
unfoldable pub open_block : ChannelState → Option ℤ
open_block cs = elim (current_block cs) [
  | none ↦ none
  | some (id, b) ↦ if is_closed b.state then none else some id
]

-- `closeCurrentBlock`, with the entries that it has updated.
unfoldable pub close_current_block :
    BlockState → (now : Text) → ChannelState → ChannelState × List HistoryEntry
close_current_block s now cs = elim (open_block cs) [
  | none ↦ (cs, [])
  | some id ↦
      let (ring, mutated) = update id (in_block (close_block s now)) cs.ring in
      (
        record cs {
          ring = ring;
          current_block_id = if is_closed s then none else cs.current_block_id;
        },
        updates_of mutated,
      )
]

abbrev pub push_body : Body → ChannelState → ChannelState × HistoryEntry
push_body body cs =
    let (ring, stored) = push (record { id = none; body = body }) cs.ring in
    (record cs { ring = ring }, stored)

-- `recordConsoleEvent`, once the channel is there.
unfoldable pub record_event : (now : Text) → ConsoleEvent → ChannelState → ChannelState
record_event now (Events.user_turn channel_id text submit sent_at result) cs =
    let (closed', updated) = close_current_block BlockState.closed now cs in
    let (pushed, stored) =
      push_body
        (user_turn
          (record { text = text; submit = submit; sent_at = sent_at; transport_result = result }))
        closed' in
    broadcast (stored ∷ []) updated pushed
record_event now (Events.control channel_id name sent_at result) cs =
    let (pushed, stored) =
      push_body (control (record { control = name; sent_at = sent_at; transport_result = result }))
        cs in
    broadcast (stored ∷ []) [] pushed

-- What `pull` reads out of the answer of the server.
pub record Read : Type 0 where
  pub text : Text
  pub truncated : Bool
  pub captured_at : Text

pub read_of : (now : Text) → Members → Read
read_of now result =
    let m = record_at (codes "read") result in
    record {
      text = or_default (string_at (codes "text") m) [];
      truncated = is_true (find_member (codes "truncated") m);
      captured_at = or_default (string_at (codes "captured_at") m) now;
    }

pub record Pulled : Type 0 where
  pub channel : ChannelState
  pub appended : List HistoryEntry
  pub updated : List HistoryEntry

abbrev pub nothing_new : ChannelState → Pulled
nothing_new cs = record { channel = cs; appended = []; updated = [] }

abbrev pub extend_block : Text → Bool → OutputBlock → OutputBlock
extend_block appended truncated b = record b {
  state = BlockState.opened;
  text = if is_empty b.text then appended else b.text ++ b'\n' ∷ appended;
  truncated = b.truncated || truncated;
}

unfoldable pub pull_earlier : Read → ChannelState → Pulled
pull_earlier r cs =
    let (pushed, stored) =
      push_body
        (earlier_output
          (record { text = r.text; truncated = r.truncated; observed_at = r.captured_at }))
        cs in
    if is_empty r.text
    then nothing_new cs
    else record { channel = pushed; appended = stored ∷ []; updated = [] }

abbrev pub new_block : Text → Read → OutputBlock
new_block appended r = record {
  state = BlockState.opened;
  text = appended;
  truncated = r.truncated;
  opened_at = r.captured_at;
  closed_at = none;
}

abbrev pub open_new : Text → Read → ChannelState → Pulled
open_new appended r cs =
    let (pushed, stored) = push_body (output_block (new_block appended r)) cs in
    record {
      channel = record pushed { current_block_id = some stored.id };
      appended = stored ∷ [];
      updated = [];
    }

abbrev pub extend_open : ℤ → Text → Read → ChannelState → Pulled
extend_open id appended r cs =
    let (ring, mutated) = update id (in_block (extend_block appended r.truncated)) cs.ring in
    record { channel = record cs { ring = ring }; appended = []; updated = updates_of mutated }

-- New output goes into the open block, if there is one.
unfoldable pub pull_output : Text → Read → ChannelState → Pulled
pull_output [] r cs = nothing_new cs
pull_output (c ∷ appended) r cs = elim (open_block cs) [
  | none ↦ open_new (c ∷ appended) r cs
  | some id ↦ extend_open id (c ∷ appended) r cs
]

-- `pull`, from the answer of `readChannel` on.
unfoldable pub pull : PullMode → Read → ChannelState → Pulled
pull earlier r cs = pull_earlier r (record cs { last_read = r.text })
pull output r cs =
    pull_output (diff_tail cs.last_read r.text).appended r (record cs { last_read = r.text })

-- ===== src/Console/Projection.antt =====
-- console/src/projection.ts. The turns are kept newest first while the loop runs: `current` of the
-- source is the turn that was pushed last, here the head.
pub mod Segments
pub mod Conserves
pub mod Settled
use agent_runtime_mcp.Base.{
  ℤ, pos, int_eq, Bool, true, false, not, ◌&&◌, Option, none, some, List, [], ◌∷◌, ◌++◌, map,
  reverse, every, ltb, length, if◌then◌else◌,
}
use agent_runtime_mcp.Console.History.Entry.{
  Entry, HistoryEntry, Body, EarlierOutput, OutputBlock, UserTurn, Control, BlockState, opened,
  paused, closed, earlier_output, output_block, user_turn, control, drop_marker,
}

pub record Turn : Type 0 where
  pub id : ℤ
  pub user : Option (Entry UserTurn)
  pub blocks : List (Entry OutputBlock)
  pub controls : List (Entry Control)
  pub earlier : Option (Entry EarlierOutput)
  pub settled : Bool

-- The synthetic turn for what precedes the first `user_turn`.
pub earlier_turn : Turn
earlier_turn = record {
  id = pos 0;
  user = none;
  blocks = [];
  controls = [];
  earlier = none;
  settled = true;
}

pub opened_turn : Entry UserTurn → Turn
opened_turn entry = record {
  id = entry.id;
  user = some entry;
  blocks = [];
  controls = [];
  earlier = none;
  settled = false;
}

-- `if (!current) { … }`, then the change of the current turn.
abbrev pub on_current : (Turn → Turn) → List Turn → List Turn
on_current change [] = change earlier_turn ∷ []
on_current change (current ∷ turns) = change current ∷ turns

abbrev pub set_earlier : Entry EarlierOutput → Turn → Turn
set_earlier entry turn =
    if int_eq turn.id (pos 0) then record turn { earlier = some entry } else turn

abbrev pub add_block : Entry OutputBlock → Turn → Turn
add_block entry turn = record turn { blocks = turn.blocks ++ entry ∷ [] }

abbrev pub add_control : Entry Control → Turn → Turn
add_control entry turn = record turn { controls = turn.controls ++ entry ∷ [] }

-- The `switch` on the kind of one entry.
pub project_body : ℤ → Body → List Turn → List Turn
project_body id (user_turn u) turns = opened_turn (record { id = id; body = u }) ∷ turns
project_body id (earlier_output e) turns =
    on_current (set_earlier (record { id = id; body = e })) turns
project_body id (output_block b) turns = on_current (add_block (record { id = id; body = b })) turns
project_body id (control c) turns = on_current (add_control (record { id = id; body = c })) turns
project_body id (drop_marker d) turns = turns

pub project_from : List Turn → List HistoryEntry → List Turn
project_from turns [] = turns
project_from turns (entry ∷ entries) = project_from (project_body entry.id entry.body turns) entries

abbrev pub is_open : BlockState → Bool
is_open opened = true
is_open paused = false
is_open closed = false

-- The last loop, on one turn.
pub settle : Turn → Turn
settle turn = if int_eq turn.id (pos 0) then turn else record turn {
  settled = ltb 0 (length turn.blocks) && every (λ b. not (is_open b.body.state)) turn.blocks;
}

pub project_conversation : List HistoryEntry → List Turn
project_conversation entries = map settle (reverse (project_from [] entries))

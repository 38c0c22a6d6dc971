-- ===== src/Console/History/Entry.antt =====
-- console/src/history.ts, the entries. An entry is its id with its body; the tag `kind` of the
-- source is the constructor of the body.
use agent_runtime_mcp.Base.{
  ℕ, ℤ, negsuc, Bool, Option, Text, length, split, byte_length, is_empty, if◌then◌else◌, [],
}

pub data TransportResult : Type 0 where
  delivered ambiguous : TransportResult

pub data BlockState : Type 0 where
  opened paused closed : BlockState

pub record EarlierOutput : Type 0 where
  pub text : Text
  pub truncated : Bool
  pub observed_at : Text

pub record OutputBlock : Type 0 where
  pub state : BlockState
  pub text : Text
  pub truncated : Bool
  pub opened_at : Text
  pub closed_at : Option Text

pub record UserTurn : Type 0 where
  pub text : Text
  pub submit : Bool
  pub sent_at : Text
  pub transport_result : TransportResult

pub record Control : Type 0 where
  pub control : Text
  pub sent_at : Text
  pub transport_result : TransportResult

pub record DropMarker : Type 0 where
  pub dropped_entries : ℕ
  pub dropped_lines : ℕ

pub data Body : Type 0 where
  earlier_output : EarlierOutput → Body
  output_block : OutputBlock → Body
  user_turn : UserTurn → Body
  control : Control → Body
  drop_marker : DropMarker → Body

-- An entry of one kind: `Entry OutputBlock` is the source's `OutputBlockEntry`.
pub record Entry (B : Type 0) : Type 0 where
  pub id : ℤ
  pub body : B

abbrev pub HistoryEntry : Type 0
HistoryEntry = Entry Body

pub record NewHistoryEntry : Type 0 where
  pub id : Option ℤ
  pub body : Body

abbrev pub marker_id : ℤ
marker_id = negsuc 0

abbrev pub body_text : Body → Text
body_text (earlier_output e) = e.text
body_text (output_block b) = b.text
body_text (user_turn u) = u.text
body_text (control c) = []
body_text (drop_marker d) = []

pub entry_text : HistoryEntry → Text
entry_text entry = body_text entry.body

pub entry_lines : HistoryEntry → ℕ
entry_lines entry =
    if is_empty (entry_text entry) then 0 else length (split b'\n' (entry_text entry))

pub entry_bytes : HistoryEntry → ℕ
entry_bytes entry = byte_length (entry_text entry)

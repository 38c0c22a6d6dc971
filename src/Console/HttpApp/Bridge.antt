-- ===== src/Console/HttpApp/Bridge.antt =====
-- console/src/http-app.ts, `bridgeTerminal`: the frames of one WebSocket and its terminal.
use agent_runtime_mcp.Base.{
  ℕ, ◌+◌, ◌*◌, Option, none, some, List, [], ◌∷◌, Text, text_eq, codes, leb, if◌then◌else◌,
}
use agent_runtime_mcp.Console.Json.{Json, Members, number, object, find_member, string_at}
use agent_runtime_mcp.Console.TerminalAttach.{
  Floored, Attach, write_terminal, resize_terminal, dispose_terminal,
}

abbrev pub max_input_data : ℕ
max_input_data = 16 * 1024

-- `data.length`, in UTF-16 units
pub utf16_length : Text → ℕ
utf16_length [] = 0
utf16_length (c ∷ s) = (if leb 0x10000 c then 2 else 1) + utf16_length s

pub data Frame : Type 0 where
  input : Text → Frame
  resize : (cols rows : Floored) → Frame

abbrev pub number_at : Text → Members → Option Floored
number_at key m = elim (find_member key m) [ number n ↦ some n | _ ↦ none ]

abbrev pub input_frame : Members → Option Frame
input_frame m = elim (string_at (codes "data") m) [ none ↦ none | some s ↦ some (input s) ]

abbrev pub resize_frame : Members → Option Frame
resize_frame m = elim (number_at (codes "cols") m) [
  | none ↦ none
  | some cols ↦ elim (number_at (codes "rows") m) [
    | none ↦ none
    | some rows ↦ some (resize cols rows)
  ]
]

-- The frames that are understood.
pub frame_of : Json → Option Frame
frame_of value = elim value [
  | object m ↦ elim (string_at (codes "type") m) [
    | none ↦ none
    | some kind ↦
        if text_eq kind (codes "input")
        then input_frame m
        else if text_eq kind (codes "resize")
        then resize_frame m
        else none
  ]
  | _ ↦ none
]

unfoldable pub on_frame : (terminal : ℕ) → Frame → Attach → Attach
on_frame i (input s) t = if leb (utf16_length s) max_input_data then write_terminal i s t else t
on_frame i (resize cols rows) t = resize_terminal i cols rows t

-- `ws.on('message', …)`; what `JSON.parse` refuses is dropped.
unfoldable pub on_message :
    (parse : List ℕ → Option Json) → (terminal : ℕ) → List ℕ → Attach → Attach
on_message parse i raw t = elim (parse raw) [
  | none ↦ t
  | some value ↦ elim (frame_of value) [ none ↦ t | some frame ↦ on_frame i frame t ]
]

-- What happens to a bridge: a message, or its end from either side.
pub data BridgeEvent : Type 0 where
  message : List ℕ → BridgeEvent
  closes errs exits : BridgeEvent

unfoldable pub step :
    (parse : List ℕ → Option Json) → (terminal : ℕ) → BridgeEvent → Attach → Attach
step parse i (message raw) t = on_message parse i raw t
step parse i closes t = dispose_terminal i t
step parse i errs t = dispose_terminal i t
step parse i exits t = dispose_terminal i t

unfoldable pub run :
    (parse : List ℕ → Option Json) → (terminal : ℕ) → List BridgeEvent → Attach → Attach
run parse i [] t = t
run parse i (e ∷ es) t = run parse i es (step parse i e t)

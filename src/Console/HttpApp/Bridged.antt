-- ===== src/Console/HttpApp/Bridged.antt =====
-- console/src/http-app.ts, `bridgeTerminal`: what reaches the terminal of one WebSocket.
use agent_runtime_mcp.Base.{
  ℕ, ◌≤◌, true, false, Option, List, [], ◌∷◌, ◌++◌, Text, leb, leb→le, ◌≡◌, refl, ◌∙◌, ap, sym,
  subst, Option-cases, inl, inr, if-elim,
}
use mathlib.Core.List.{append_assoc, append-nil}
use agent_runtime_mcp.Console.HttpApp.Bridge.{
  Frame, BridgeEvent, max_input_data, utf16_length, input, resize, frame_of, on_frame, on_message,
  message, closes, errs, exits, step, run,
}
use agent_runtime_mcp.Console.Json.{Json}
use agent_runtime_mcp.Console.TerminalAttach.{
  Geometry, PtyCall, Attach, spawn, write, kill, clamp_geometry, dispose_terminal,
}
use agent_runtime_mcp.Console.TerminalAttach
use agent_runtime_mcp.Console.TerminalAttach.Live.{
  IsAt, called, write_terminal_live, write_terminal_dead, resize_terminal_live,
  resize_terminal_dead, dispose_terminal_dead, dispose_terminal_live,
}

-- Calls for the terminal `i` alone: writes within the limit, changes of its size, and at most one
-- `kill`, which is the last.
abbrev pub IsBridgeLog : ℕ → List PtyCall → Type 0
IsBridgeLog i [] = Unit
IsBridgeLog i (call ∷ calls) = elim call [
  | spawn argv geometry ↦ ⊥
  | write j s ↦ (j ≡ i) × (utf16_length s ≤ max_input_data) × IsBridgeLog i calls
  | TerminalAttach.resize j geometry ↦ (j ≡ i) × IsBridgeLog i calls
  | kill j ↦ (j ≡ i) × (calls ≡ [])
]

on_frame_dead : (i : ℕ) (f : Frame) (t : Attach) → IsAt i true t → on_frame i f t ≡ t
unfolding on_frame
on_frame_dead i (input s) t at =
    if-elim (λ (t' : Attach). t' ≡ t) (leb (utf16_length s) max_input_data) _ _
      (λ _. write_terminal_dead i s t at) (λ _. refl)
on_frame_dead i (resize cols rows) t at = resize_terminal_dead i cols rows t at

step_dead :
    (parse : List ℕ → Option Json) (i : ℕ) (e : BridgeEvent) (t : Attach)
    → IsAt i true t
    → step parse i e t ≡ t
unfolding step on_message
step_dead parse i (message raw) t at = elim (Option-cases (parse raw)) [
  | inl bad ↦ rw (bad, on_message) refl
  | inr (value, good) ↦ elim (Option-cases (frame_of value)) [
    | inl other ↦ rw (good, other, on_message) refl
    | inr (f, is_frame) ↦ rw (good, is_frame, on_message) (on_frame_dead i f t at)
  ]
]
step_dead parse i closes t at = dispose_terminal_dead i t at
step_dead parse i errs t at = dispose_terminal_dead i t at
step_dead parse i exits t at = dispose_terminal_dead i t at

run_dead :
    (parse : List ℕ → Option Json) (i : ℕ) (es : List BridgeEvent) (t : Attach)
    → IsAt i true t
    → run parse i es t ≡ t
unfolding run
run_dead parse i [] t at = refl
run_dead parse i (e ∷ es) t at =
    ap (run parse i es) (step_dead parse i e t at) ∙ run_dead parse i es t at

-- One step of a live terminal: nothing, one call that is not the last, or the end.
data IsStep (i : ℕ) (t t' : Attach) : Type 0 where
  nothing : t' ≡ t → IsStep i t t'
  writes : (s : Text) → utf16_length s ≤ max_input_data → t' ≡ called (write i s) t → IsStep i t t'
  resizes : (g : Geometry) → t' ≡ called (TerminalAttach.resize i g) t → IsStep i t t'
  ends : IsAt i true t' → t'.calls ≡ t.calls ++ kill i ∷ [] → IsStep i t t'

on_frame-IsStep : (i : ℕ) (f : Frame) (t : Attach) → IsAt i false t → IsStep i t (on_frame i f t)
unfolding on_frame
on_frame-IsStep i (input s) t at =
    if-elim (IsStep i t) (leb (utf16_length s) max_input_data) _ _
      (λ fits. writes s (leb→le _ _ fits) (write_terminal_live i s t at)) (λ _. nothing refl)
on_frame-IsStep i (resize cols rows) t at =
    resizes (clamp_geometry cols rows) (resize_terminal_live i cols rows t at)

step-IsStep :
    (parse : List ℕ → Option Json) (i : ℕ) (e : BridgeEvent) (t : Attach)
    → IsAt i false t
    → IsStep i t (step parse i e t)
unfolding step on_message
step-IsStep parse i (message raw) t at = elim (Option-cases (parse raw)) [
  | inl bad ↦ rw (bad, on_message) (nothing refl)
  | inr (value, good) ↦ elim (Option-cases (frame_of value)) [
    | inl other ↦ rw (good, other, on_message) (nothing refl)
    | inr (f, is_frame) ↦ rw (good, is_frame, on_message) (on_frame-IsStep i f t at)
  ]
]
step-IsStep parse i closes t at =
    ends (dispose_terminal_live i t at).0 (dispose_terminal_live i t at).1
step-IsStep parse i errs t at =
    ends (dispose_terminal_live i t at).0 (dispose_terminal_live i t at).1
step-IsStep parse i exits t at =
    ends (dispose_terminal_live i t at).0 (dispose_terminal_live i t at).1

-- The calls from `q` on, beside those of `t`.
abbrev Adds : (List ℕ → Option Json) → ℕ → List BridgeEvent → Attach → Attach → Type 0
Adds parse i es t q =
    (added : List PtyCall) × ((run parse i es q).calls ≡ t.calls ++ added) × IsBridgeLog i added

called-IsAt : (i : ℕ) (call : PtyCall) (t : Attach) → IsAt i false t → IsAt i false (called call t)
called-IsAt i call t at = record {
  terminal = at.terminal;
  found = at.found;
  disposed_eq = at.disposed_eq;
}

-- Whatever messages come, and however the socket or the process ends, in whatever order and how often:
-- what is passed on to a terminal that lives is for it alone, no input larger than the limit, and
-- nothing after the one `kill` that ends it.
pub run-IsBridgeLog :
    (parse : List ℕ → Option Json) (i : ℕ) (es : List BridgeEvent) (t : Attach)
    → IsAt i false t
    → (added : List PtyCall) × ((run parse i es t).calls ≡ t.calls ++ added) × IsBridgeLog i added
unfolding run
run-IsBridgeLog parse i [] t at = ([], sym (append-nil t.calls), tt)
run-IsBridgeLog parse i (e ∷ es) t at = elim (step-IsStep parse i e t at) [
  | nothing same ↦ subst (Adds parse i es t) (sym same) (run-IsBridgeLog parse i es t at)
  | writes s fits same ↦
      let (added, e', ok') =
        run-IsBridgeLog parse i es (called (write i s) t) (called-IsAt i (write i s) t at) in
      subst (Adds parse i es t) (sym same)
        (write i s ∷ added, e' ∙ append_assoc t.calls (write i s ∷ []) added, (refl, fits, ok'))
  | resizes g same ↦
      let call = TerminalAttach.resize i g in
      let (added, e', ok') = run-IsBridgeLog parse i es (called call t) (called-IsAt i call t at) in
      subst (Adds parse i es t) (sym same)
        (call ∷ added, e' ∙ append_assoc t.calls (call ∷ []) added, (refl, ok'))
  | ends dead killed ↦ (
    kill i ∷ [],
    ap (λ (q : Attach). q.calls) (run_dead parse i es _ dead) ∙ killed,
    (refl, refl),
  )
]

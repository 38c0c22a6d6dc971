-- ===== src/Runtime/Tools/Spans.antt =====
-- src/mcp.ts and src/phase-diagnostics.ts: the phases that one call of a tool reports, without their
-- ids, times and read shapes.
use agent_runtime_mcp.Base.{
  Bool, true, false, Option, none, some, List, [], ◌∷◌, ◌++◌, Text, codes, not, map, All,
  Bool-cases, ◌≡◌, refl, inl, inr, if-elim, if◌then◌else◌,
}
use agent_runtime_mcp.Console.Tmux.{includes}
use agent_runtime_mcp.Runtime.Errors.{Thrown, channel_error, anything}
use agent_runtime_mcp.Runtime.Tools.{
  Settlement, ToolResult, success, failure, code_name, run_tool, result_error_code,
}

pub data Method : Type 0 where
  list_channels get_channel read_channel write_text send_control health wait_channel_event : Method

pub data Phase : Type 0 where
  method_start backend_start backend_end method_end : Phase

pub record PhaseRecord : Type 0 where
  pub phase : Phase
  pub method : Method
  pub outcome : Option Bool
  pub error_code : Option Text

abbrev pub known_codes : List Text
known_codes =
    codes "CHANNEL_NOT_FOUND"
    ∷ codes "CHANNEL_UNAVAILABLE"
    ∷ codes "BACKEND_UNAVAILABLE"
    ∷ codes "BACKEND_OPERATION_FAILED"
    ∷ codes "INVALID_ARGUMENT"
    ∷ codes "CAPABILITY_UNSUPPORTED"
    ∷ codes "PERMISSION_DENIED"
    ∷ codes "TIMEOUT"
    ∷ codes "AUTHENTICATION_REQUIRED"
    ∷ codes "OBSERVATION_UNSUPPORTED"
    ∷ codes "CURSOR_INVALID"
    ∷ codes "CURSOR_EXPIRED"
    ∷ codes "OBSERVATION_GAP"
    ∷ codes "CHANNEL_INSTANCE_CHANGED"
    ∷ codes "WAITER_LIMIT"
    ∷ codes "RESOURCE_EXHAUSTED"
    ∷ codes "WAIT_ARGUMENT_INVALID"
    ∷ codes "INTERNAL_ERROR"
    ∷ []

pub safe_error_code : Option Text → Option Text
safe_error_code none = none
safe_error_code (some code) = if includes known_codes code then some code else none

-- `emit` of a span, which does nothing where diagnostics are off.
abbrev pub emit : (enabled : Bool) → PhaseRecord → List PhaseRecord → List PhaseRecord
emit enabled r log = if enabled then log ++ r ∷ [] else log

abbrev pub phase_record : Phase → Method → Option Bool → Option Text → PhaseRecord
phase_record phase method outcome code = record {
  phase = phase;
  method = method;
  outcome = outcome;
  error_code = safe_error_code code;
}

abbrev pub thrown_code : Thrown → Text
thrown_code (channel_error e) = code_name e.code
thrown_code anything = codes "INTERNAL_ERROR"

abbrev pub backend_ended : Method → Settlement → PhaseRecord
backend_ended method (success payload) = phase_record backend_end method (some true) none
backend_ended method (failure e) =
    phase_record backend_end method (some false) (some (thrown_code e))

abbrev pub has_backend_phase : Method → Bool
has_backend_phase method = elim method [ read_channel ↦ true | _ ↦ false ]

-- The phases of the backend, around the action of a read.
abbrev pub backend_phases :
    (enabled : Bool) → Method → Settlement → List PhaseRecord → List PhaseRecord
backend_phases enabled method s log =
    if has_backend_phase method
    then emit enabled (backend_ended method s)
        (emit enabled (phase_record backend_start method none none) log)
    else log

-- `invokeTool`. Nothing in it throws, so that its `catch` is left out.
pub invoke_tool :
    (enabled : Bool)
    → Method
    → (prints : Bool) → Settlement
    → List PhaseRecord
    → List PhaseRecord × ToolResult
invoke_tool enabled method prints s log =
    let result = run_tool prints s in
    let started = emit enabled (phase_record method_start method none none) log in
    (
      emit enabled
          (phase_record method_end method (some (not result.is_error)) (result_error_code result))
          (backend_phases enabled method s started),
      result,
    )

-- A code that is reported is one of the known ones.
abbrev pub IsKnown : Option Text → Type 0
IsKnown none = Unit
IsKnown (some code) = includes known_codes code ≡ true

-- The phases that one call adds: its start and its end, and for a read those of the backend between.
abbrev pub added_phases : Method → List Phase
added_phases method =
    if has_backend_phase method
    then method_start ∷ backend_start ∷ backend_end ∷ method_end ∷ []
    else method_start ∷ method_end ∷ []

pub record IsTraced (method : Method) (s : Settlement) (result : ToolResult)
    (added : List PhaseRecord) : Type 0 where
  pub phases_eq : map (λ (r : PhaseRecord). r.phase) added ≡ added_phases method
  pub methods_eq : All (λ (r : PhaseRecord). r.method ≡ method) added
  pub codes_known : All (λ (r : PhaseRecord). IsKnown r.error_code) added

safe_error_code-IsKnown : (code : Option Text) → IsKnown (safe_error_code code)
unfolding safe_error_code
safe_error_code-IsKnown none = tt
safe_error_code-IsKnown (some code) = elim (Bool-cases (includes known_codes code)) [
  | inl known ↦ rw (known, safe_error_code) known
  | inr other ↦ rw (other, safe_error_code) tt
]

backend_phases_off : (method : Method) (s : Settlement) → backend_phases false method s [] ≡ []
backend_phases_off method s =
    if-elim (λ (log : List PhaseRecord). log ≡ []) (has_backend_phase method) _ _ (λ _. refl)
      (λ _. refl)

-- The log of one call, with diagnostics on.
abbrev traced : Method → (prints : Bool) → Settlement → List PhaseRecord
traced method prints s =
    let result = run_tool prints s in
    backend_phases true method s (phase_record method_start method none none ∷ [])
    ++ phase_record method_end method (some (not result.is_error)) (result_error_code result) ∷ []

plain-IsTraced :
    (method : Method) (prints : Bool) (s : Settlement)
    → has_backend_phase method ≡ false
    → IsTraced method s (run_tool prints s) (traced method prints s)
plain-IsTraced method prints s other = record {
  phases_eq = rw other refl;
  methods_eq = rw other (refl, (refl, tt));
  codes_known = rw other (
    safe_error_code-IsKnown none,
    (safe_error_code-IsKnown (result_error_code (run_tool prints s)), tt),
  );
}

read-IsTraced :
    (prints : Bool) (s : Settlement)
    → IsTraced read_channel s (run_tool prints s) (traced read_channel prints s)
read-IsTraced prints (success payload) = record {
  phases_eq = refl;
  methods_eq = (refl, (refl, (refl, (refl, tt))));
  codes_known = (
    safe_error_code-IsKnown none,
    (
      safe_error_code-IsKnown none,
      (
        safe_error_code-IsKnown none,
        (safe_error_code-IsKnown (result_error_code (run_tool prints (success payload))), tt),
      ),
    ),
  );
}
read-IsTraced prints (failure e) = record {
  phases_eq = refl;
  methods_eq = (refl, (refl, (refl, (refl, tt))));
  codes_known = (
    safe_error_code-IsKnown none,
    (
      safe_error_code-IsKnown none,
      (
        safe_error_code-IsKnown (some (thrown_code e)),
        (safe_error_code-IsKnown (result_error_code (run_tool prints (failure e))), tt),
      ),
    ),
  );
}

traced-IsTraced :
    (method : Method) (prints : Bool) (s : Settlement)
    → IsTraced method s (run_tool prints s) (traced method prints s)
traced-IsTraced list_channels prints s = plain-IsTraced list_channels prints s refl
traced-IsTraced get_channel prints s = plain-IsTraced get_channel prints s refl
traced-IsTraced write_text prints s = plain-IsTraced write_text prints s refl
traced-IsTraced send_control prints s = plain-IsTraced send_control prints s refl
traced-IsTraced health prints s = plain-IsTraced health prints s refl
traced-IsTraced wait_channel_event prints s = plain-IsTraced wait_channel_event prints s refl
traced-IsTraced read_channel prints s = read-IsTraced prints s

-- The diagnostics change nothing of the result of a tool. Where they are on, a call reports its start
-- and its end, and a read between them those of the backend, with no error code but the known ones.
pub invoke_tool-IsTraced :
    (enabled : Bool) (method : Method) (prints : Bool) (s : Settlement)
    → ((invoke_tool enabled method prints s []).1 ≡ run_tool prints s)
      × (if enabled
          then IsTraced method s (run_tool prints s) (invoke_tool enabled method prints s []).0
          else ((invoke_tool enabled method prints s []).0 ≡ []))
unfolding invoke_tool
invoke_tool-IsTraced false method prints s = (refl, backend_phases_off method s)
invoke_tool-IsTraced true method prints s = (refl, traced-IsTraced method prints s)

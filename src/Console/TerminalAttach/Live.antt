-- ===== src/Console/TerminalAttach/Live.antt =====
-- console/src/terminal-attach.ts: what the handle of one terminal does while it lives, and after.
use agent_runtime_mcp.Base.{
  ℕ, Bool, true, false, some, [], ◌∷◌, ◌++◌, Text, get_elem?, get_elem?-set, ◌≡◌, refl,
}
use agent_runtime_mcp.Console.TerminalAttach.{
  Floored, PtyCall, Terminal, Attach, write, resize, kill, clamp_geometry, emit, write_terminal,
  resize_terminal, dispose_terminal,
}

-- The terminal with that number is there, and was disposed of or not.
pub record IsAt (i : ℕ) (dead : Bool) (t : Attach) : Type 0 where
  pub terminal : Terminal
  pub found : get_elem? t.terminals i ≡ some terminal
  pub disposed_eq : terminal.disposed ≡ dead

abbrev pub called : PtyCall → Attach → Attach
called call t = record t { calls = t.calls ++ call ∷ [] }

emit_live : (i : ℕ) (call : PtyCall) (t : Attach) → IsAt i false t → emit i call t ≡ called call t
emit_live i call t at = rw (at.found, at.disposed_eq, emit) refl

emit_dead : (i : ℕ) (call : PtyCall) (t : Attach) → IsAt i true t → emit i call t ≡ t
emit_dead i call t at = rw (at.found, at.disposed_eq, emit) refl

pub write_terminal_live :
    (i : ℕ) (s : Text) (t : Attach) → IsAt i false t → write_terminal i s t ≡ called (write i s) t
unfolding write_terminal
write_terminal_live i s t at = emit_live i (write i s) t at

pub write_terminal_dead : (i : ℕ) (s : Text) (t : Attach) → IsAt i true t → write_terminal i s t ≡ t
unfolding write_terminal
write_terminal_dead i s t at = emit_dead i (write i s) t at

pub resize_terminal_live :
    (i : ℕ) (cols rows : Floored) (t : Attach)
    → IsAt i false t
    → resize_terminal i cols rows t ≡ called (resize i (clamp_geometry cols rows)) t
unfolding resize_terminal
resize_terminal_live i cols rows t at = emit_live i _ t at

pub resize_terminal_dead :
    (i : ℕ) (cols rows : Floored) (t : Attach) → IsAt i true t → resize_terminal i cols rows t ≡ t
unfolding resize_terminal
resize_terminal_dead i cols rows t at = emit_dead i _ t at

pub dispose_terminal_dead : (i : ℕ) (t : Attach) → IsAt i true t → dispose_terminal i t ≡ t
unfolding dispose_terminal
dispose_terminal_dead i t at = rw (at.found, at.disposed_eq, dispose_terminal) refl

pub dispose_terminal_live :
    (i : ℕ) (t : Attach)
    → IsAt i false t
    → IsAt i true (dispose_terminal i t) × ((dispose_terminal i t).calls ≡ t.calls ++ kill i ∷ [])
unfolding dispose_terminal
dispose_terminal_live i t at =
    let disposed : Terminal = record at.terminal { disposed = true } in
    rw (at.found, at.disposed_eq, dispose_terminal)
      (
        record {
          terminal = disposed;
          found = get_elem?-set t.terminals i at.terminal disposed at.found;
          disposed_eq = refl;
        },
        refl,
      )

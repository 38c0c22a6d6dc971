-- ===== src/Console/TerminalAttach/Spawns.antt =====
-- console/src/terminal-attach.ts: which processes a whole run starts.
use agent_runtime_mcp.Base.{
  ℕ, zero, suc, ap, ◌∙◌, some-inj, Bool, true, false, some, List, [], ◌∷◌, ◌++◌, Text, get_elem?,
  set, All, All-append, if-elim, ◌≡◌, refl, sym, subst, Option-cases, inl, inr,
}
use agent_runtime_mcp.Console.Tmux.{TmuxEnv, scope_of, socket_args_of}
use agent_runtime_mcp.Console.TerminalAttach.{
  Attach, AttachInput, Target, Outcome, ok, refused, unavailable, Reservation, PtyCall, spawn,
  write, resize, kill, new_attach, new_reservation, admit, reserve, consume, spawn_attached, commit,
  dispose_reservation, attach, dispose_terminal, emit, write_terminal, resize_terminal,
}
use agent_runtime_mcp.Console.TerminalAttach.Argv.{IsAttachTarget, admit-IsAttachTarget}
use agent_runtime_mcp.Console.TerminalAttach.Slots.{
  AttachCall, reserves, commits, attaches, disposes_reservation, disposes_terminal, writes, resizes,
  step, run,
}

module _ (allowed socket : List Text) where
  -- These are the words for some proper target.
  abbrev pub IsAttachArgv : List Text → Type 0
  IsAttachArgv argv = (t : Target) × IsAttachTarget allowed t × (argv ≡ t.argv)

  abbrev pub IsProperCall : PtyCall → Type 0
  IsProperCall (spawn argv g) = (words : List Text) × IsAttachArgv words × (argv ≡ socket ++ words)
  IsProperCall (write i t) = Unit
  IsProperCall (resize i g) = Unit
  IsProperCall (kill i) = Unit

  abbrev IsProperReservation : Reservation → Type 0
  IsProperReservation r = IsAttachArgv r.argv

  record IsProper (s : Attach) : Type 0 where
    scope : s.allowed_sessions ≡ allowed
    socket_eq : s.socket_args ≡ socket
    reservations : All IsProperReservation s.reservations
    calls : All IsProperCall s.calls

  reserve-IsProper : (s : Attach) (input : AttachInput) → IsProper s → IsProper (reserve s input).0
  unfolding reserve
  reserve-IsProper s input c = go (admit s input) refl
    where
      go : (o : Outcome Target) → admit s input ≡ o → IsProper (reserve s input).0
      go (ok target) e =
          let proper =
            subst (λ a. IsAttachTarget a target) c.scope (admit-IsAttachTarget s input target e) in
          rw (e, reserve)
            (record {
              scope = c.scope;
              socket_eq = c.socket_eq;
              reservations =
                  All-append IsProperReservation s.reservations (new_reservation input target ∷ [])
                    c.reservations ((target, proper, refl), tt);
              calls = c.calls;
            })
      go (refused r) e =
          rw (e, reserve)
            (record {
              scope = c.scope;
              socket_eq = c.socket_eq;
              reservations = c.reservations;
              calls = c.calls;
            })
      go unavailable e =
          rw (e, reserve)
            (record {
              scope = c.scope;
              socket_eq = c.socket_eq;
              reservations = c.reservations;
              calls = c.calls;
            })

  All-set :
      (rs : List Reservation) (i : ℕ) (r : Reservation)
      → All IsProperReservation rs
      → IsProperReservation r
      → All IsProperReservation (set rs i r)
  All-set [] i r a p = tt
  All-set (x ∷ rs) zero r a p = (p, a.1)
  All-set (x ∷ rs) (suc i) r a p = (a.0, All-set rs i r a.1 p)

  All-get :
      (rs : List Reservation) (i : ℕ) (r : Reservation)
      → All IsProperReservation rs
      → get_elem? rs i ≡ some r
      → IsProperReservation r
  All-get [] i r a e = absurd (cc e)
  All-get (x ∷ rs) zero r a e = subst IsProperReservation (some-inj e) a.0
  All-get (x ∷ rs) (suc i) r a e = All-get rs i r a.1 e

  consume-IsProper :
      (i : ℕ) (r : Reservation) (s : Attach)
      → IsProperReservation r
      → IsProper s
      → IsProper (consume i r s)
  unfolding consume
  consume-IsProper i r s p c = record {
    scope = c.scope;
    socket_eq = c.socket_eq;
    reservations = All-set s.reservations i (record r { consumed = true }) c.reservations p;
    calls = c.calls;
  }

  spawn_attached-IsProper :
      (spawns : Bool) (r : Reservation) (s : Attach)
      → IsProperReservation r
      → IsProper s
      → IsProper (spawn_attached spawns r s).0
  unfolding spawn_attached
  spawn_attached-IsProper false r s p c = record {
    scope = c.scope;
    socket_eq = c.socket_eq;
    reservations = c.reservations;
    calls = c.calls;
  }
  spawn_attached-IsProper true r s p c = record {
    scope = c.scope;
    socket_eq = c.socket_eq;
    reservations = c.reservations;
    calls =
        All-append IsProperCall s.calls (spawn (s.socket_args ++ r.argv) r.geometry ∷ []) c.calls
          ((r.argv, p, ap (λ a. a ++ r.argv) c.socket_eq), tt);
  }

  commit-IsProper :
      (spawns : Bool) (i : ℕ) (s : Attach) → IsProper s → IsProper (commit spawns i s).0
  unfolding commit
  commit-IsProper spawns i s c = elim (Option-cases (get_elem? s.reservations i)) [
    | inl missing ↦ rw (missing, commit) c
    | inr (r, found) ↦
        let p = All-get s.reservations i r c.reservations found in
        rw (found, commit)
          (if-elim (λ (q : Attach × Outcome ℕ). IsProper q.0) r.consumed _ _ (λ _. c)
            λ _. spawn_attached-IsProper spawns r (consume i r s) p (consume-IsProper i r s p c))
  ]

  dispose_reservation-IsProper :
      (i : ℕ) (s : Attach) → IsProper s → IsProper (dispose_reservation i s)
  unfolding dispose_reservation
  dispose_reservation-IsProper i s c = elim (Option-cases (get_elem? s.reservations i)) [
    | inl missing ↦ rw (missing, dispose_reservation) c
    | inr (r, found) ↦
        rw (found, dispose_reservation)
          (if-elim IsProper r.consumed _ _ (λ _. c)
            λ _. consume-IsProper i r s (All-get s.reservations i r c.reservations found) c)
  ]

  with_call :
      (call : PtyCall) (s s' : Attach)
      → s'.allowed_sessions ≡ s.allowed_sessions
      → s'.socket_args ≡ s.socket_args
      → s'.reservations ≡ s.reservations
      → s'.calls ≡ s.calls ++ call ∷ []
      → IsProperCall call
      → IsProper s
      → IsProper s'
  with_call call s s' a b r e p c = record {
    scope = a ∙ c.scope;
    socket_eq = b ∙ c.socket_eq;
    reservations = subst (All IsProperReservation) (sym r) c.reservations;
    calls =
        subst (All IsProperCall) (sym e)
          (All-append IsProperCall s.calls (call ∷ []) c.calls (p, tt));
  }

  dispose_terminal-IsProper : (i : ℕ) (s : Attach) → IsProper s → IsProper (dispose_terminal i s)
  unfolding dispose_terminal
  dispose_terminal-IsProper i s c = elim (Option-cases (get_elem? s.terminals i)) [
    | inl missing ↦ rw (missing, dispose_terminal) c
    | inr (t, found) ↦
        rw (found, dispose_terminal)
          (if-elim IsProper t.disposed _ _ (λ _. c)
            λ _. with_call (kill i) s _ refl refl refl refl tt c)
  ]

  emit-IsProper :
      (i : ℕ) (call : PtyCall) (s : Attach)
      → IsProperCall call
      → IsProper s
      → IsProper (emit i call s)
  emit-IsProper i call s p c = elim (Option-cases (get_elem? s.terminals i)) [
    | inl missing ↦ rw (missing, emit) c
    | inr (t, found) ↦
        rw (found, emit)
          (if-elim IsProper t.disposed _ _ (λ _. c) λ _. with_call call s _ refl refl refl refl p c)
  ]

  attach-IsProper :
      (spawns : Bool) (input : AttachInput) (s : Attach)
      → IsProper s
      → IsProper (attach spawns input s).0
  unfolding attach
  attach-IsProper spawns input s c =
      go (reserve s input).0 (reserve s input).1 (reserve-IsProper s input c)
    where
      go :
          (s' : Attach) (held : Outcome ℕ)
          → IsProper s'
          → IsProper
              (elim held as (λ _. Attach × Outcome ℕ) [
                | ok i ↦ commit spawns i s'
                | refused r ↦ (s', refused r)
                | unavailable ↦ (s', unavailable)
              ]).0
      go s' (ok i) c' = commit-IsProper spawns i s' c'
      go s' (refused r) c' = c'
      go s' unavailable c' = c'

  step-IsProper : (call : AttachCall) (s : Attach) → IsProper s → IsProper (step call s)
  unfolding step write_terminal resize_terminal
  step-IsProper (reserves input) s c = reserve-IsProper s input c
  step-IsProper (commits spawns i) s c = commit-IsProper spawns i s c
  step-IsProper (attaches spawns input) s c = attach-IsProper spawns input s c
  step-IsProper (disposes_reservation i) s c = dispose_reservation-IsProper i s c
  step-IsProper (disposes_terminal i) s c = dispose_terminal-IsProper i s c
  step-IsProper (writes i t) s c = emit-IsProper i (write i t) s tt c
  step-IsProper (resizes i cols rows) s c = emit-IsProper i _ s tt c

  run-IsProper : (calls : List AttachCall) (s : Attach) → IsProper s → IsProper (run calls s)
  unfolding run
  run-IsProper [] s c = c
  run-IsProper (call ∷ calls) s c = run-IsProper calls (step call s) (step-IsProper call s c)

-- Every process that a run starts is tmux with the configured socket and the attach command for a
-- session that has a proper name and lies in the configured scope, with at most a window and a
-- pane selected by their tmux ids. Nothing else from the metadata reaches the command line.
pub run-new_attach-IsProperCall :
    (enabled : Bool) (max_attach : ℕ) (env : TmuxEnv) (calls : List AttachCall)
    → All
        (IsProperCall (scope_of env) (socket_args_of env))
        (run calls (new_attach enabled max_attach env)).calls
unfolding new_attach
run-new_attach-IsProperCall enabled max_attach env calls =
    (run-IsProper (scope_of env) (socket_args_of env) calls _
      (record { scope = refl; socket_eq = refl; reservations = tt; calls = tt })).calls

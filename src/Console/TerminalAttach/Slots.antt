-- ===== src/Console/TerminalAttach/Slots.antt =====
-- console/src/terminal-attach.ts: the slots are counted right, and never more than the limit.
use agent_runtime_mcp.Base.{
  ℕ, suc, ◌+◌, ◌≤◌, ◌<◌, Bool, true, false, some, List, [], ◌∷◌, ◌++◌, Text, sum_of, sum_of-append,
  sum_of-set, sum_of-get-le, get_elem?, if◌then◌else◌, ◌≡◌, refl, arith, if-elim, Option-cases, inl,
  inr,
}
use agent_runtime_mcp.Console.Tmux.{TmuxEnv}
use agent_runtime_mcp.Console.TerminalAttach.{
  Attach, AttachInput, Target, Floored, Outcome, ok, refused, unavailable, Reservation, Terminal,
  PtyCall, spawn, write, resize, kill, new_attach, admit, new_reservation, new_terminal, hold,
  reserve, consume, spawn_attached, commit, dispose_reservation, attach, dispose_terminal, emit,
  write_terminal, resize_terminal,
}

abbrev open_reservation : Reservation → ℕ
open_reservation r = if r.consumed then 0 else 1

abbrev open_terminal : Terminal → ℕ
open_terminal t = if t.disposed then 0 else 1

abbrev is_spawn : PtyCall → ℕ
is_spawn (spawn argv g) = 1
is_spawn (write i t) = 0
is_spawn (resize i g) = 0
is_spawn (kill i) = 0

abbrev is_kill : PtyCall → ℕ
is_kill (kill i) = 1
is_kill (spawn argv g) = 0
is_kill (write i t) = 0
is_kill (resize i g) = 0

-- The counters are the numbers of reservations not yet consumed and of terminals not yet disposed;
-- together they stay within the limit. As many terminals run as were spawned and not killed.
pub record IsCounted (s : Attach) : Type 0 where
  pub reserved_eq : s.reserved ≡ sum_of open_reservation s.reservations
  pub active_eq : s.active ≡ sum_of open_terminal s.terminals
  pub within : s.active + s.reserved ≤ s.max_attach
  pub alive : s.active + sum_of is_kill s.calls ≡ sum_of is_spawn s.calls

admit-room :
    (s : Attach) (input : AttachInput) (target : Target)
    → admit s input ≡ ok target
    → s.active + s.reserved < s.max_attach
unfolding admit
admit-room s input target h = ground arith

hold-IsCounted :
    (s : Attach) (input : AttachInput) (target : Target)
    → s.active + s.reserved < s.max_attach
    → IsCounted s
    → IsCounted (hold s input target)
hold-IsCounted s input target room c =
    omega (arith, sum_of-append open_reservation s.reservations (new_reservation input target ∷ []))

reserve-IsCounted : (s : Attach) (input : AttachInput) → IsCounted s → IsCounted (reserve s input).0
unfolding reserve
reserve-IsCounted s input c = go (admit s input) refl
  where
    go : (o : Outcome Target) → admit s input ≡ o → IsCounted (reserve s input).0
    go (ok target) e =
        rw (e, reserve) (hold-IsCounted s input target (admit-room s input target e) c)
    go (refused r) e = rw (e, reserve) (omega arith)
    go unavailable e = rw (e, reserve) (omega arith)

consume-IsCounted :
    (i : ℕ) (r : Reservation) (s : Attach)
    → get_elem? s.reservations i ≡ some r
    → r.consumed ≡ false
    → IsCounted s
    → IsCounted (consume i r s) × (s.reserved ≡ suc (consume i r s).reserved)
unfolding consume
consume-IsCounted i r s found fresh c =
    let held : open_reservation r ≡ 1 = rw fresh in
    omega (
      arith,
      held,
      sum_of-set open_reservation s.reservations i (record r { consumed = true }) r found,
      sum_of-get-le open_reservation s.reservations i r found,
    )

spawn_attached-IsCounted :
    (spawns : Bool) (r : Reservation) (s : Attach)
    → s.active + s.reserved < s.max_attach
    → IsCounted s
    → IsCounted (spawn_attached spawns r s).0
unfolding spawn_attached
spawn_attached-IsCounted false r s room c = omega arith
spawn_attached-IsCounted true r s room c = omega (
  arith,
  sum_of-append open_terminal s.terminals (new_terminal r ∷ []),
  sum_of-append is_spawn s.calls (spawn (s.socket_args ++ r.argv) r.geometry ∷ []),
  sum_of-append is_kill s.calls (spawn (s.socket_args ++ r.argv) r.geometry ∷ []),
)

room_after_consume :
    (i : ℕ) (r : Reservation) (s : Attach)
    → s.reserved ≡ suc (consume i r s).reserved
    → IsCounted s
    → (consume i r s).active + (consume i r s).reserved < (consume i r s).max_attach
unfolding consume
room_after_consume i r s freed c = omega arith

commit-IsCounted :
    (spawns : Bool) (i : ℕ) (s : Attach) → IsCounted s → IsCounted (commit spawns i s).0
unfolding commit
commit-IsCounted spawns i s c = elim (Option-cases (get_elem? s.reservations i)) [
  | inl missing ↦ rw (missing, commit) c
  | inr (r, found) ↦
      rw (found, commit)
        (if-elim (λ (p : Attach × Outcome ℕ). IsCounted p.0) r.consumed _ _ (λ _. c)
          λ fresh.
            let (counted, freed) = consume-IsCounted i r s found fresh c in
            spawn_attached-IsCounted spawns r (consume i r s) (room_after_consume i r s freed c)
              counted)
]

dispose_reservation-IsCounted :
    (i : ℕ) (s : Attach) → IsCounted s → IsCounted (dispose_reservation i s)
unfolding dispose_reservation
dispose_reservation-IsCounted i s c = elim (Option-cases (get_elem? s.reservations i)) [
  | inl missing ↦ rw (missing, dispose_reservation) c
  | inr (r, found) ↦
      rw (found, dispose_reservation)
        (if-elim IsCounted r.consumed _ _ (λ _. c)
          λ fresh. (consume-IsCounted i r s found fresh c).0)
]

attach-IsCounted :
    (spawns : Bool) (input : AttachInput) (s : Attach)
    → IsCounted s
    → IsCounted (attach spawns input s).0
unfolding attach
attach-IsCounted spawns input s c =
    go (reserve s input).0 (reserve s input).1 (reserve-IsCounted s input c)
  where
    go :
        (s' : Attach) (held : Outcome ℕ)
        → IsCounted s'
        → IsCounted
            (elim held as (λ _. Attach × Outcome ℕ) [
              | ok i ↦ commit spawns i s'
              | refused r ↦ (s', refused r)
              | unavailable ↦ (s', unavailable)
            ]).0
    go s' (ok i) c' = commit-IsCounted spawns i s' c'
    go s' (refused r) c' = c'
    go s' unavailable c' = c'

dispose_terminal-IsCounted : (i : ℕ) (s : Attach) → IsCounted s → IsCounted (dispose_terminal i s)
unfolding dispose_terminal
dispose_terminal-IsCounted i s c = elim (Option-cases (get_elem? s.terminals i)) [
  | inl missing ↦ rw (missing, dispose_terminal) c
  | inr (t, found) ↦
      rw (found, dispose_terminal)
        (if-elim IsCounted t.disposed _ _ (λ _. c)
          λ running.
            let held : open_terminal t ≡ 1 = rw running in
            omega (
              arith,
              held,
              sum_of-set open_terminal s.terminals i (record t { disposed = true }) t found,
              sum_of-get-le open_terminal s.terminals i t found,
              sum_of-append is_spawn s.calls (kill i ∷ []),
              sum_of-append is_kill s.calls (kill i ∷ []),
            ))
]

emit-IsCounted :
    (i : ℕ) (call : PtyCall) (s : Attach)
    → is_spawn call ≡ 0
    → is_kill call ≡ 0
    → IsCounted s
    → IsCounted (emit i call s)
emit-IsCounted i call s no_spawn no_kill c = elim (Option-cases (get_elem? s.terminals i)) [
  | inl missing ↦ rw (missing, emit) c
  | inr (t, found) ↦
      rw (found, emit)
        (if-elim IsCounted t.disposed _ _ (λ _. c)
          λ running. omega (
            arith,
            sum_of-append is_spawn s.calls (call ∷ []),
            sum_of-append is_kill s.calls (call ∷ []),
          ))
]

-- The calls that the program makes of the adapter and of what it hands out.
pub data AttachCall : Type 0 where
  reserves : AttachInput → AttachCall
  commits : (spawns : Bool) → ℕ → AttachCall
  attaches : (spawns : Bool) → AttachInput → AttachCall
  disposes_reservation disposes_terminal : ℕ → AttachCall
  writes : ℕ → Text → AttachCall
  resizes : ℕ → Floored → Floored → AttachCall

unfoldable pub step : AttachCall → Attach → Attach
step (reserves input) s = (reserve s input).0
step (commits spawns i) s = (commit spawns i s).0
step (attaches spawns input) s = (attach spawns input s).0
step (disposes_reservation i) s = dispose_reservation i s
step (disposes_terminal i) s = dispose_terminal i s
step (writes i t) s = write_terminal i t s
step (resizes i cols rows) s = resize_terminal i cols rows s

unfoldable pub run : List AttachCall → Attach → Attach
run [] s = s
run (call ∷ calls) s = run calls (step call s)

step-IsCounted : (call : AttachCall) (s : Attach) → IsCounted s → IsCounted (step call s)
unfolding step write_terminal resize_terminal
step-IsCounted (reserves input) s c = reserve-IsCounted s input c
step-IsCounted (commits spawns i) s c = commit-IsCounted spawns i s c
step-IsCounted (attaches spawns input) s c = attach-IsCounted spawns input s c
step-IsCounted (disposes_reservation i) s c = dispose_reservation-IsCounted i s c
step-IsCounted (disposes_terminal i) s c = dispose_terminal-IsCounted i s c
step-IsCounted (writes i t) s c = emit-IsCounted i (write i t) s refl refl c
step-IsCounted (resizes i cols rows) s c = emit-IsCounted i _ s refl refl c

run-IsCounted : (calls : List AttachCall) (s : Attach) → IsCounted s → IsCounted (run calls s)
unfolding run
run-IsCounted [] s c = c
run-IsCounted (call ∷ calls) s c = run-IsCounted calls (step call s) (step-IsCounted call s c)

-- Whatever the program calls, and whether or not spawning fails: the two counters are the numbers
-- of reservations not yet consumed and of terminals not yet disposed, their sum never exceeds the
-- limit, and the terminals spawned and not killed are as many as the counter says.
pub run-new_attach-IsCounted :
    (enabled : Bool) (max_attach : ℕ) (env : TmuxEnv) (calls : List AttachCall)
    → IsCounted (run calls (new_attach enabled max_attach env))
unfolding new_attach
run-new_attach-IsCounted enabled max_attach env calls = run-IsCounted calls _ (omega arith)

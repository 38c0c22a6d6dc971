-- ===== src/Console/TerminalAttach.antt =====
-- console/src/terminal-attach.ts. A reservation and an attached terminal, objects with a flag of
-- their own in the source, are entries of two lists, named by their position. Whether the spawner
-- throws is an argument of each call that spawns.
pub mod Slots
pub mod Argv
pub mod Spawns
pub mod Settled
pub mod Live
use agent_runtime_mcp.Base.{
  ℕ, ℤ, pos, negsuc, zero, suc, ◌+◌, ◌-◌, min, max, Bool, true, false, not, ◌&&◌, ◌||◌, Option,
  none, some, List, [], ◌∷◌, ◌++◌, map, Text, text_eq, is_empty, length, every, take, get_elem?,
  set, ltb, leb, ◌==◌, is_digit, codes, or_default, if◌then◌else◌,
}
use agent_runtime_mcp.Console.Tmux.{
  TmuxEnv, is_session_name, is_out_of_scope, scope_of, socket_args_of,
}

-- `Math.floor` of a JavaScript number.
pub data Floored : Type 0 where
  nan infinite minus_infinite : Floored
  whole : ℤ → Floored

abbrev pub min_cols : ℕ
min_cols = 20

abbrev pub max_cols : ℕ
max_cols = 400

abbrev pub min_rows : ℕ
min_rows = 5

abbrev pub max_rows : ℕ
max_rows = 120

-- `clamp(Math.floor(value) || fallback, lo, hi)`
pub clamp : Floored → (fallback lo hi : ℕ) → ℕ
clamp nan fallback lo hi = min hi (max lo fallback)
clamp infinite fallback lo hi = hi
clamp minus_infinite fallback lo hi = min hi lo
clamp (whole (pos zero)) fallback lo hi = min hi (max lo fallback)
clamp (whole (pos (suc n))) fallback lo hi = min hi (max lo (suc n))
clamp (whole (negsuc n)) fallback lo hi = min hi lo

pub record Geometry : Type 0 where
  pub cols : ℕ
  pub rows : ℕ

pub clamp_geometry : Floored → Floored → Geometry
clamp_geometry cols rows = record {
  cols = clamp cols 80 min_cols max_cols;
  rows = clamp rows 24 min_rows max_rows;
}

-- A field of the metadata that the server sent: absent, of another type, or text.
pub data Field : Type 0 where
  absent other_type : Field
  text : Text → Field

pub record TmuxTarget : Type 0 where
  pub session_name : Field
  pub window_id : Field
  pub pane_id : Field

pub record AttachInput : Type 0 where
  pub tmux : TmuxTarget
  pub cols : Floored
  pub rows : Floored
  pub actor : Text

pub data Refusal : Type 0 where
  disabled attach_cap invalid_target out_of_scope reservation_consumed : Refusal

pub data Outcome (A : Type 0) : Type 0 where
  ok : A → Outcome A
  refused : Refusal → Outcome A
  unavailable : Outcome A

infixl 5 ◌>>=◌
abbrev pub ◌>>=◌ : {A B : Type 0} → Outcome A → (A → Outcome B) → Outcome B
ok a >>= f = f a
refused r >>= f = refused r
unavailable >>= f = unavailable

pub data AuditResult : Type 0 where
  audit_ok audit_error : AuditResult
  audit_refused : Refusal → AuditResult

pub record Audit : Type 0 where
  pub actor : Text
  pub session : Text
  pub result : AuditResult

-- The calls of the pseudo terminal library.
pub data PtyCall : Type 0 where
  spawn : List Text → Geometry → PtyCall
  write : ℕ → Text → PtyCall
  resize : ℕ → Geometry → PtyCall
  kill : ℕ → PtyCall

pub record Reservation : Type 0 where
  pub actor : Text
  pub session : Text
  pub argv : List Text
  pub geometry : Geometry
  pub consumed : Bool

pub record Terminal : Type 0 where
  pub session : Text
  pub disposed : Bool

pub record Attach : Type 0 where
  pub enabled : Bool
  pub max_attach : ℕ
  pub allowed_sessions : List Text
  pub socket_args : List Text
  pub active : ℕ
  pub reserved : ℕ
  pub reservations : List Reservation
  pub terminals : List Terminal
  pub audits : List Audit
  pub calls : List PtyCall

pub new_attach : (enabled : Bool) → (max_attach : ℕ) → TmuxEnv → Attach
new_attach enabled max_attach env = record {
  enabled = enabled;
  max_attach = max_attach;
  allowed_sessions = scope_of env;
  socket_args = socket_args_of env;
  active = 0;
  reserved = 0;
  reservations = [];
  terminals = [];
  audits = [];
  calls = [];
}

-- `/^@[0-9]+$/` and `/^%[0-9]+$/`
pub is_tmux_id : ℕ → Text → Bool
is_tmux_id mark [] = false
is_tmux_id mark (c ∷ s) = c == mark && ltb 0 (length s) && every is_digit s

-- An id that is absent adds nothing; one that does not match is refused.
pub select : ℕ → Text → Field → Outcome (List Text)
select mark command absent = ok []
select mark command other_type = refused invalid_target
select mark command (text id) =
    if is_tmux_id mark id
    then ok (codes ";" ∷ command ∷ codes "-t" ∷ id ∷ [])
    else refused invalid_target

pub record Target : Type 0 where
  pub session : Text
  pub argv : List Text

pub checked_session : Attach → Field → Outcome Text
checked_session s absent = refused invalid_target
checked_session s other_type = refused invalid_target
checked_session s (text session) =
    if not (is_session_name session)
    then refused invalid_target
    else if is_out_of_scope s.allowed_sessions session
    then refused out_of_scope
    else ok session

pub resolve_target : Attach → TmuxTarget → Outcome Target
resolve_target s tmux = do
  session ← checked_session s tmux.session_name
  window ← select b'@' (codes "select-window") tmux.window_id
  pane ← select b'%' (codes "select-pane") tmux.pane_id
  ok (record {
    session = session;
    argv = codes "attach-session" ∷ codes "-t" ∷ session ∷ (window ++ pane);
  })

abbrev pub audit : Text → Text → AuditResult → Attach → Attach
audit actor session result s = record s {
  audits =
      s.audits ++ record { actor = take 64 actor; session = take 64 session; result = result } ∷ [];
}

-- `typeof session_name === 'string' ? session_name : ''`
abbrev named : Field → Text
named absent = []
named other_type = []
named (text session) = session

-- What `reserve` decides before it takes a slot.
pub admit : Attach → AttachInput → Outcome Target
admit s input =
    if not s.enabled
    then refused disabled
    else if leb s.max_attach (s.active + s.reserved)
    then refused attach_cap
    else resolve_target s input.tmux

abbrev pub new_reservation : AttachInput → Target → Reservation
new_reservation input target = record {
  actor = input.actor;
  session = target.session;
  argv = target.argv;
  geometry = clamp_geometry input.cols input.rows;
  consumed = false;
}

abbrev pub hold : Attach → AttachInput → Target → Attach
hold s input target = record s {
  reserved = s.reserved + 1;
  reservations = s.reservations ++ new_reservation input target ∷ [];
}

-- The result is the position of the new reservation.
pub reserve : Attach → AttachInput → Attach × Outcome ℕ
reserve s input = elim (admit s input) [
  | ok target ↦ (hold s input target, ok (length s.reservations))
  | refused r ↦ (audit input.actor (named input.tmux.session_name) (audit_refused r) s, refused r)
  | unavailable ↦ (audit input.actor (named input.tmux.session_name) audit_error s, unavailable)
]

-- `consumed = true; self.reserved -= 1;`
pub consume : ℕ → Reservation → Attach → Attach
consume i r s = record s {
  reserved = s.reserved - 1;
  reservations = set s.reservations i (record r { consumed = true });
}

abbrev pub new_terminal : Reservation → Terminal
new_terminal r = record { session = r.session; disposed = false }

-- `spawnAttached`; the result is the position of the new terminal.
pub spawn_attached : (spawns : Bool) → Reservation → Attach → Attach × Outcome ℕ
spawn_attached false r s = (audit r.actor r.session audit_error s, unavailable)
spawn_attached true r s = (
  audit r.actor r.session audit_ok (record s {
    active = s.active + 1;
    terminals = s.terminals ++ new_terminal r ∷ [];
    calls = s.calls ++ spawn (s.socket_args ++ r.argv) r.geometry ∷ [];
  }),
  ok (length s.terminals),
)

-- A position that no reservation has is none of the program's: nothing happens.
pub commit : (spawns : Bool) → ℕ → Attach → Attach × Outcome ℕ
commit spawns i s = elim (get_elem? s.reservations i) [
  | none ↦ (s, refused reservation_consumed)
  | some r ↦
      if r.consumed
      then (s, refused reservation_consumed)
      else spawn_attached spawns r (consume i r s)
]

pub dispose_reservation : ℕ → Attach → Attach
dispose_reservation i s = elim (get_elem? s.reservations i) [
  | none ↦ s
  | some r ↦ if r.consumed then s else consume i r s
]

pub attach : (spawns : Bool) → AttachInput → Attach → Attach × Outcome ℕ
attach spawns input s =
    let (s', held) = reserve s input in
    elim held [
      | ok i ↦ commit spawns i s'
      | refused r ↦ (s', refused r)
      | unavailable ↦ (s', unavailable)
    ]

-- `dispose`, which `onExit` calls too; whether `kill` throws makes no difference.
pub dispose_terminal : ℕ → Attach → Attach
dispose_terminal i s = elim (get_elem? s.terminals i) [
  | none ↦ s
  | some t ↦ if t.disposed then s else record s {
    active = s.active - 1;
    terminals = set s.terminals i (record t { disposed = true });
    calls = s.calls ++ kill i ∷ [];
  }
]

abbrev pub emit : ℕ → PtyCall → Attach → Attach
emit i call s = elim (get_elem? s.terminals i) [
  | none ↦ s
  | some t ↦ if t.disposed then s else record s { calls = s.calls ++ call ∷ [] }
]

pub write_terminal : ℕ → Text → Attach → Attach
write_terminal i data' s = emit i (write i data') s

pub resize_terminal : ℕ → Floored → Floored → Attach → Attach
resize_terminal i cols rows s = emit i (resize i (clamp_geometry cols rows)) s

-- ===== src/Console/TerminalAttach/Settled.antt =====
-- console/src/terminal-attach.ts: what one reservation comes to.
use agent_runtime_mcp.Base.{
  ℕ, ◌+◌, true, false, List, [], ◌∷◌, ◌++◌, Text, length, get_elem?-length-append, ◌≡◌, ◌⊎◌, refl,
  arith, inl, inr,
}
use agent_runtime_mcp.Console.TerminalAttach.{
  Geometry, AttachInput, Target, Outcome, Refusal, Attach, ok, refused, unavailable, spawn, admit,
  new_reservation, hold, reserve, consume, spawn_attached, commit, dispose_reservation,
}

-- The slots and the calls of the pseudo terminal library are as they were.
pub record IsSame (t t' : Attach) : Type 0 where
  pub active_eq : t'.active ≡ t.active
  pub reserved_eq : t'.reserved ≡ t.reserved
  pub calls_eq : t'.calls ≡ t.calls

-- One more terminal, by one more process.
pub record IsAttached (t t' : Attach) : Type 0 where
  pub active_eq : t'.active ≡ t.active + 1
  pub reserved_eq : t'.reserved ≡ t.reserved
  pub spawned :
      (argv : List Text) × (geometry : Geometry) × (t'.calls ≡ t.calls ++ spawn argv geometry ∷ [])

Outcome-cases :
    {A : Type 0} (o : Outcome A)
    → ((v : A) × (o ≡ ok v)) ⊎ ((r : Refusal) × (o ≡ refused r)) ⊎ (o ≡ unavailable)
Outcome-cases (ok v) = inl (v, refl)
Outcome-cases (refused r) = inr (inl (r, refl))
Outcome-cases unavailable = inr (inr refl)

pub data IsReserved (t : Attach) (input : AttachInput) (p : Attach × Outcome ℕ) : Type 0 where
  holds :
      (target : Target)
      → p.0 ≡ hold t input target
      → p.1 ≡ ok (length t.reservations)
      → IsReserved t input p
  refuses : (r : Refusal) → p.1 ≡ refused r → IsSame t p.0 → IsReserved t input p
  lacks : p.1 ≡ unavailable → IsSame t p.0 → IsReserved t input p

pub reserve-IsReserved : (t : Attach) (input : AttachInput) → IsReserved t input (reserve t input)
unfolding reserve
reserve-IsReserved t input = elim (Outcome-cases (admit t input)) [
  | inl (target, e) ↦ rw (e, reserve) (holds target refl refl)
  | inr (inl (r, e)) ↦
      rw (e, reserve)
        (refuses r refl (record { active_eq = refl; reserved_eq = refl; calls_eq = refl }))
  | inr (inr e) ↦
      rw (e, reserve)
        (lacks refl (record { active_eq = refl; reserved_eq = refl; calls_eq = refl }))
]

module _ (t : Attach) (input : AttachInput) (target : Target) where
  pub dispose_reservation-hold-IsSame :
      IsSame t (dispose_reservation (length t.reservations) (hold t input target))
  unfolding dispose_reservation consume
  dispose_reservation-hold-IsSame =
      rw
        (get_elem?-length-append t.reservations (new_reservation input target), dispose_reservation)
        (record { active_eq = refl; reserved_eq = omega arith; calls_eq = refl })

  pub commit-hold_fails :
      (commit false (length t.reservations) (hold t input target)).1 ≡ unavailable
  unfolding commit spawn_attached
  commit-hold_fails =
      rw (get_elem?-length-append t.reservations (new_reservation input target), commit) refl

  pub commit-hold-IsSame : IsSame t (commit false (length t.reservations) (hold t input target)).0
  unfolding commit spawn_attached consume
  commit-hold-IsSame =
      rw (get_elem?-length-append t.reservations (new_reservation input target), commit)
        (record { active_eq = refl; reserved_eq = omega arith; calls_eq = refl })

  pub commit-hold_works :
      (commit true (length t.reservations) (hold t input target)).1 ≡ ok (length t.terminals)
  unfolding commit spawn_attached consume
  commit-hold_works =
      rw (get_elem?-length-append t.reservations (new_reservation input target), commit) refl

  pub commit-hold-IsAttached :
      IsAttached t (commit true (length t.reservations) (hold t input target)).0
  unfolding commit spawn_attached consume
  commit-hold-IsAttached =
      rw (get_elem?-length-append t.reservations (new_reservation input target), commit)
        (record { active_eq = refl; reserved_eq = omega arith; spawned = (_, _, refl) })

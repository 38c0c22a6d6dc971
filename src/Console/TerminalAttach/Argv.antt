-- ===== src/Console/TerminalAttach/Argv.antt =====
-- console/src/terminal-attach.ts: what reaches the tmux command line, and the size of a terminal.
use agent_runtime_mcp.Base.{
  ℕ, ◌≤◌, ◌+◌, ◌⊎◌, zero, suc, pos, negsuc, leb, not, true, false, List, [], ◌∷◌, ◌++◌, Text, codes,
  if-elim, ◌≡◌, refl, subst, arith, Bool-cases, inl, inr,
}
use agent_runtime_mcp.Console.Tmux.{is_session_name, is_out_of_scope}
use agent_runtime_mcp.Console.TerminalAttach.{
  Attach, AttachInput, TmuxTarget, Field, absent, other_type, text, Target, Outcome, ok, refused,
  unavailable, ◌>>=◌, Floored, nan, infinite, minus_infinite, whole, clamp, clamp_geometry,
  is_tmux_id, select, checked_session, resolve_target, admit,
}

-- Whatever size the browser asks for, also none or an absurd one, is brought within the limits.
clamp_geometry_bounds :
    (cols rows : Floored)
    → (20 ≤ (clamp_geometry cols rows).cols)
      × ((clamp_geometry cols rows).cols ≤ 400)
      × (5 ≤ (clamp_geometry cols rows).rows)
      × ((clamp_geometry cols rows).rows ≤ 120)
unfolding clamp_geometry clamp
clamp_geometry_bounds cols rows =
    let (lo, hi) = clamp_bounds cols 80 20 400 (omega arith) in
    let (lo', hi') = clamp_bounds rows 24 5 120 (omega arith) in (lo, hi, lo', hi')
  where
    clamp_bounds :
        (x : Floored) (fallback lo hi : ℕ)
        → lo ≤ hi
        → (lo ≤ clamp x fallback lo hi) × (clamp x fallback lo hi ≤ hi)
    clamp_bounds nan fallback lo hi h = (omega arith, omega arith)
    clamp_bounds infinite fallback lo hi h = (omega arith, omega arith)
    clamp_bounds minus_infinite fallback lo hi h = (omega arith, omega arith)
    clamp_bounds (whole (pos zero)) fallback lo hi h = (omega arith, omega arith)
    clamp_bounds (whole (pos (suc n))) fallback lo hi h = (omega arith, omega arith)
    clamp_bounds (whole (negsuc n)) fallback lo hi h = (omega arith, omega arith)

-- The words that select a window or a pane: none, or a fixed command with an id of that kind.
abbrev pub Selects : ℕ → Text → List Text → Type 0
Selects mark command words =
    (words ≡ [])
    ⊎ ((id : Text) × (is_tmux_id mark id ≡ true)
        × (words ≡ codes ";" ∷ command ∷ codes "-t" ∷ id ∷ []))

select-Selects :
    (mark : ℕ) (command : Text) (f : Field) (words : List Text)
    → select mark command f ≡ ok words
    → Selects mark command words
unfolding select
select-Selects mark command absent words h = inl (cc)
select-Selects mark command other_type words h = absurd (cc h)
select-Selects mark command (text id) words h = elim (Bool-cases (is_tmux_id mark id)) [
  | inl good ↦ inr (id, good, ground arith)
  | inr bad ↦ absurd (cc (rw bad at h))
]

-- A target whose session has a proper name inside the scope, and whose words are the fixed attach
-- command for that session, followed by at most one window and one pane selected by tmux id.
pub record IsAttachTarget (allowed : List Text) (t : Target) : Type 0 where
  pub named : is_session_name t.session ≡ true
  pub in_scope : is_out_of_scope allowed t.session ≡ false
  pub window : List Text
  pub pane : List Text
  pub selects_window : Selects b'@' (codes "select-window") window
  pub selects_pane : Selects b'%' (codes "select-pane") pane
  pub argv_eq : t.argv ≡ codes "attach-session" ∷ codes "-t" ∷ t.session ∷ (window ++ pane)

checked_session-eq-ok :
    (s : Attach) (f : Field) (session : Text)
    → checked_session s f ≡ ok session
    → (is_session_name session ≡ true) × (is_out_of_scope s.allowed_sessions session ≡ false)
unfolding checked_session
checked_session-eq-ok s absent session h = absurd (cc h)
checked_session-eq-ok s other_type session h = absurd (cc h)
checked_session-eq-ok s (text name) session h = elim (Bool-cases (is_session_name name)) [
  | inr bad ↦ absurd (cc (rw bad at h))
  | inl good ↦ elim (Bool-cases (is_out_of_scope s.allowed_sessions name)) [
    | inl outside ↦ absurd (cc (rw (good, outside) at h))
    | inr inside ↦
        let same : name ≡ session = cc (rw (good, inside) at h) in
        subst (λ n. (is_session_name n ≡ true) × (is_out_of_scope s.allowed_sessions n ≡ false))
          same (good, inside)
  ]
]

>>=-eq-ok :
    {A B : Type 0} (first : Outcome A) (next : A → Outcome B) {value : B}
    → first >>= next ≡ ok value
    → (found : A) × (first ≡ ok found) × (next found ≡ ok value)
>>=-eq-ok unavailable next e = absurd (cc e)
>>=-eq-ok (refused refusal) next e = absurd (cc e)
>>=-eq-ok (ok found) next e = (found, refl, e)

resolve_target-IsAttachTarget :
    (s : Attach) (tmux : TmuxTarget) (t : Target)
    → resolve_target s tmux ≡ ok t
    → IsAttachTarget s.allowed_sessions t
unfolding resolve_target
resolve_target-IsAttachTarget s tmux t h =
    let (session, named_ok, h₁) = >>=-eq-ok (checked_session s tmux.session_name) _ h in
    let (window, window_ok, h₂) =
      >>=-eq-ok (select b'@' (codes "select-window") tmux.window_id) _ h₁ in
    let (pane, pane_ok, h₃) = >>=-eq-ok (select b'%' (codes "select-pane") tmux.pane_id) _ h₂ in
    let (named, in_scope) = checked_session-eq-ok s tmux.session_name session named_ok in
    let same = ok-injective h₃ in
    subst (IsAttachTarget s.allowed_sessions) same (record {
      named = named;
      in_scope = in_scope;
      window = window;
      pane = pane;
      selects_window = select-Selects b'@' (codes "select-window") tmux.window_id window window_ok;
      selects_pane = select-Selects b'%' (codes "select-pane") tmux.pane_id pane pane_ok;
      argv_eq = refl;
    })
  where
    ok-injective : {a b : Target} → ok a ≡ ok b → a ≡ b
    ok-injective e = cc

pub admit-IsAttachTarget :
    (s : Attach) (input : AttachInput) (t : Target)
    → admit s input ≡ ok t
    → IsAttachTarget s.allowed_sessions t
unfolding admit
admit-IsAttachTarget s input t h =
    if-elim Admits (not s.enabled) _ _ (λ _ e. absurd (cc e))
      (λ _.
        if-elim Admits (leb s.max_attach (s.active + s.reserved)) _ _ (λ _ e. absurd (cc e))
          (λ _. resolve_target-IsAttachTarget s input.tmux t))
      h
  where
    Admits : Outcome Target → Type 0
    Admits o = o ≡ ok t → IsAttachTarget s.allowed_sessions t

-- ===== src/Console/HttpApp/Asked.antt =====
-- console/src/http-app.ts, `handleMutation`: what a body asks for.
use agent_runtime_mcp.Base.{
  Bool, true, false, Option, none, some, Text, codes, text_eq, text_eq_iff, ◌≡◌, ◌⊎◌, refl, sym,
  Option-cases, Bool-cases, inl, inr, some-inj, none-absurd, true-absurd, subst, ap,
}
use agent_runtime_mcp.Console.HttpApp.{World, Request, read_json_body, parsed}
use agent_runtime_mcp.Console.HttpApp.Mutations.{
  Kind, text_kind, control_kind, Mutation, send_text, press, controls, submit_of, mutation_of,
}
use agent_runtime_mcp.Console.Json.{
  Json, Members, undefined, null, array, boolean, number, string, object, find_member, has_member,
  string_at,
}
use agent_runtime_mcp.Console.Tmux.{includes}

-- The flag `submit`, which is true where it is absent.
abbrev pub IsSubmit : Members → Bool → Type 0
IsSubmit m submit =
    ((has_member (codes "submit") m ≡ false) × (submit ≡ true))
    ⊎ ((has_member (codes "submit") m ≡ true) × (find_member (codes "submit") m ≡ boolean submit))

-- One of the three controls.
pub data IsControl (control : Text) : Type 0 where
  enter : control ≡ codes "ENTER" → IsControl control
  interrupt : control ≡ codes "INTERRUPT" → IsControl control
  escape : control ≡ codes "ESCAPE" → IsControl control

-- The members of a body ask for this text with its flag, or for this control.
pub data IsAsked (m : Members) : Kind → Mutation → Type 0 where
  asks_text :
      (text : Text) (submit : Bool)
      → string_at (codes "text") m ≡ some text
      → IsSubmit m submit
      → IsAsked m text_kind (send_text text submit)
  asks_control :
      (control : Text)
      → string_at (codes "control") m ≡ some control
      → IsControl control
      → IsAsked m control_kind (press control)

-- The body of the request is an object that asks for the mutation.
pub record AsksFor (w : World) (r : Request) (kind : Kind) (m : Mutation) : Type 0 where
  pub members : Members
  pub body_eq : read_json_body w.parse_json r.chunks ≡ parsed (object members)
  pub asked : IsAsked members kind m

boolean_at-eq :
    (j : Json) (submit : Bool)
    → ◌≡◌ {A = Option Bool}
        (elim j as (λ _. Option Bool) [ boolean b ↦ some b | _ ↦ none ])
        (some submit)
    → j ≡ boolean submit
boolean_at-eq (boolean b) submit h = ap boolean (some-inj h)
boolean_at-eq (object m) submit h = none-absurd h
boolean_at-eq undefined submit h = none-absurd h
boolean_at-eq null submit h = none-absurd h
boolean_at-eq array submit h = none-absurd h
boolean_at-eq (number n) submit h = none-absurd h
boolean_at-eq (string s) submit h = none-absurd h

submit_of-IsSubmit : (m : Members) (submit : Bool) → submit_of m ≡ some submit → IsSubmit m submit
unfolding submit_of
submit_of-IsSubmit m submit h = elim (Bool-cases (has_member (codes "submit") m)) [
  | inl given ↦
      inr
        (given, boolean_at-eq (find_member (codes "submit") m) submit (rw (given, submit_of) at h))
  | inr absent ↦ inl (absent, sym (some-inj (rw (absent, submit_of) at h)))
]

IsSubmit-submit_of : (m : Members) (submit : Bool) → IsSubmit m submit → submit_of m ≡ some submit
unfolding submit_of
IsSubmit-submit_of m submit (inl (absent, e)) = rw (absent, e, submit_of) refl
IsSubmit-submit_of m submit (inr (given, e)) = rw (given, e, submit_of) refl

includes-IsControl : (c : Text) → includes controls c ≡ true → IsControl c
includes-IsControl c h = elim (Bool-cases (text_eq (codes "ENTER") c)) [
  | inl e ↦ enter (sym ((text_eq_iff (codes "ENTER") c).0 e))
  | inr not_enter ↦ elim (Bool-cases (text_eq (codes "INTERRUPT") c)) [
    | inl e ↦ interrupt (sym ((text_eq_iff (codes "INTERRUPT") c).0 e))
    | inr not_interrupt ↦ elim (Bool-cases (text_eq (codes "ESCAPE") c)) [
      | inl e ↦ escape (sym ((text_eq_iff (codes "ESCAPE") c).0 e))
      | inr not_escape ↦ true-absurd (sym (rw (not_enter, not_interrupt, not_escape) at h))
    ]
  ]
]

IsControl-includes : (c : Text) → IsControl c → includes controls c ≡ true
unfolding text_eq
IsControl-includes c (enter e) = rw e refl
IsControl-includes c (interrupt e) = rw e refl
IsControl-includes c (escape e) = rw e refl

pub IsAsked-mutation_of :
    (m : Members) (kind : Kind) (mutation : Mutation)
    → IsAsked m kind mutation
    → mutation_of kind m ≡ some mutation
unfolding mutation_of
IsAsked-mutation_of m _ _ (asks_text text submit e s) =
    rw (e, mutation_of)
      (ap (λ o. elim o as (λ _. Option Mutation) [ none ↦ none | some f ↦ some (send_text text f) ])
        (IsSubmit-submit_of m submit s))
IsAsked-mutation_of m _ _ (asks_control control e c) =
    rw (e, IsControl-includes control c, mutation_of) refl

text_of-IsAsked :
    (m : Members) (text : Text) (mutation : Mutation)
    → string_at (codes "text") m ≡ some text
    → (o : Option Bool) → submit_of m ≡ o
    → ◌≡◌ {A = Option Mutation}
        (elim o as (λ _. Option Mutation) [ none ↦ none | some f ↦ some (send_text text f) ])
        (some mutation)
    → IsAsked m text_kind mutation
text_of-IsAsked m text mutation e none s h = none-absurd h
text_of-IsAsked m text mutation e (some submit) s h =
    subst (IsAsked m text_kind) (some-inj h)
      (asks_text text submit e (submit_of-IsSubmit m submit s))

pub mutation_of-IsAsked :
    (m : Members) (kind : Kind) (mutation : Mutation)
    → mutation_of kind m ≡ some mutation
    → IsAsked m kind mutation
unfolding mutation_of
mutation_of-IsAsked m text_kind mutation h = elim (Option-cases (string_at (codes "text") m)) [
  | inl absent ↦ none-absurd (rw (absent, mutation_of) at h)
  | inr (text, e) ↦ text_of-IsAsked m text mutation e (submit_of m) refl (rw (e, mutation_of) at h)
]
mutation_of-IsAsked m control_kind mutation h =
    elim (Option-cases (string_at (codes "control") m)) [
      | inl absent ↦ none-absurd (rw (absent, mutation_of) at h)
      | inr (control, e) ↦ elim (Bool-cases (includes controls control)) [
        | inr other ↦ none-absurd (rw (e, other, mutation_of) at h)
        | inl listed ↦
            subst (IsAsked m control_kind) (some-inj (rw (e, listed, mutation_of) at h))
              (asks_control control e (includes-IsControl control listed))
      ]
    ]

-- ===== src/Console/Config/Protected.antt =====
-- console/src/config.ts: which sessions are protected.
use agent_runtime_mcp.Base.{
  Bool, true, false, not, ◌&&◌, ◌||◌, Option, List, [], ◌∷◌, ◌++◌, Text, codes, is_empty, text_eq,
  text_eq_iff, split, any, or_default, ◌≡◌, refl, sym, ap, ◌∙◌, arith, Bool-cases, inl, inr,
}
use agent_runtime_mcp.Console.Tmux.{trim, includes}
use agent_runtime_mcp.Console.Config.{is_blank, add, add_all, parse_protected_sessions}

includes-append :
    (names : List Text) (x n : Text)
    → includes (names ++ x ∷ []) n ≡ (includes names n || text_eq x n)
includes-append [] x n = ground arith
includes-append (m ∷ names) x n = ground (arith, includes-append names x n)

includes-add :
    (names : List Text) (x n : Text) → includes (add names x) n ≡ (includes names n || text_eq x n)
includes-add names x n = elim (Bool-cases (includes names x)) [
  | inr absent ↦ rw absent (includes-append names x n)
  | inl present ↦ elim (Bool-cases (text_eq x n)) [
    | inr other ↦ rw (present, other) (ground arith)
    | inl same ↦
        let there : includes names n ≡ true =
          ap (includes names) (sym ((text_eq_iff x n).0 same)) ∙ present in
        rw (present, same, there) refl
  ]
]

-- A name is listed in the variable, with white space around it at most.
abbrev pub names_session : Text → List Text → Bool
names_session n = any (λ piece. not (is_empty (trim piece)) && text_eq (trim piece) n)

or_assoc : (a b c : Bool) → ((a || b) || c) ≡ (a || (b || c))
or_assoc true b c = refl
or_assoc false b c = refl

includes-add_all :
    (sessions names : List Text) (n : Text)
    → includes (add_all sessions names) n ≡ (includes sessions n || names_session n names)
unfolding add_all
includes-add_all sessions [] n = ground arith
includes-add_all sessions (x ∷ names) n = elim (Bool-cases (is_empty (trim x))) [
  | inl blank ↦ rw blank (includes-add_all sessions names n)
  | inr there ↦ rw there (
      includes-add_all (add sessions (trim x)) names n
      ∙ ap (λ b. b || names_session n names) (includes-add sessions (trim x) n)
      ∙ or_assoc (includes sessions n) (text_eq (trim x) n) (names_session n names))
]

-- The protected sessions are the keeper and, where the variable is not blank, the names between its
-- commas, trimmed and not empty; and no other.
pub parse_protected_sessions-includes :
    (raw : Option Text) (n : Text)
    → includes (parse_protected_sessions raw) n ≡ (
        text_eq (codes "agent-runtime-keeper") n
        || (not (is_blank raw) && names_session n (split b',' (or_default raw []))))
unfolding parse_protected_sessions
parse_protected_sessions-includes raw n = elim (Bool-cases (is_blank raw)) [
  | inl blank ↦ rw blank refl
  | inr set ↦ rw set (
      includes-add_all (codes "agent-runtime-keeper" ∷ []) (split b',' (or_default raw [])) n
      ∙ or_assoc (text_eq (codes "agent-runtime-keeper") n) false
          (names_session n (split b',' (or_default raw []))))
]

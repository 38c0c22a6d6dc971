-- ===== src/Console/SessionLifecycle/Guards.antt =====
-- console/src/session-lifecycle.ts: what a call must satisfy before the runner is called.
use agent_runtime_mcp.Base.{
  Bool, true, false, not, Option, none, some, List, [], ◌∷◌, ◌++◌, map, Text, is_empty, codes,
  if◌then◌else◌, if-elim, ◌≡◌, ◌⊎◌, refl, sym, subst, ap, ◌∙◌, Option-cases, inl, inr,
}
use agent_runtime_mcp.Console.Tmux.{
  is_session_name, is_out_of_scope, includes, trim, scope_of, socket_args_of,
}
use agent_runtime_mcp.Console.SessionLifecycle.{
  Outcome, ok, refused, failed, Reason, ◌>>=◌, ◌>>◌, require, Settings, CreateInput, KillInput,
  Found, own, no_argv, missing, find_profile, found_profile, fill_template, is_inside, under_roots,
  resolve_cwd, admit_create, admit_kill, cwd_outside_roots,
}
use agent_runtime_mcp.Console.SessionLifecycle.Substitute.{replace_all}

>>=-eq-ok :
    {A B : Type 0} (first : Outcome A) (next : A → Outcome B) {value : B}
    → first >>= next ≡ ok value
    → (found : A) × (first ≡ ok found) × (next found ≡ ok value)
>>=-eq-ok failed next e = absurd (cc e)
>>=-eq-ok (refused reason) next e = absurd (cc e)
>>=-eq-ok (ok found) next e = (found, refl, e)

require-eq-ok :
    {B : Type 0} (b : Bool) (r : Reason) (k : Outcome B) {v : B}
    → (require b r >> k) ≡ ok v
    → (b ≡ true) × (k ≡ ok v)
require-eq-ok true r k h = (refl, h)
require-eq-ok false r k h = absurd (cc h)

not-eq-true : (b : Bool) → not b ≡ true → b ≡ false
not-eq-true true h = cc
not-eq-true false h = refl

ok-inj : {A : Type 0} {a b : A} → ok a ≡ ok b → a ≡ b
ok-inj e = cc

found_profile-eq-ok :
    (f : Found) (template : List Text) → found_profile f ≡ ok (some template) → f ≡ own template
found_profile-eq-ok (own argv) template h = cc
found_profile-eq-ok no_argv template h = cc
found_profile-eq-ok missing template h = cc

fill_template-eq-ok :
    (profile : Option (List Text)) (name cwd : Text) (words : List Text)
    → fill_template profile name cwd ≡ ok words
    → (template : List Text) × (profile ≡ some template)
      × (words
          ≡ map
              (λ arg. replace_all (codes "{cwd}") cwd (replace_all (codes "{name}") name arg))
              template)
fill_template-eq-ok none name cwd words h = absurd (cc h)
fill_template-eq-ok (some template) name cwd words h = (template, refl, sym (ok-inj h))

-- One of the roots resolves to a directory that the path is, or lies below.
abbrev pub IsUnder : (Text → Option Text) → Text → List Text → Type 0
IsUnder realpath real [] = ⊥
IsUnder realpath real (root ∷ roots) =
    ((real_root : Text) × (realpath root ≡ some real_root) × (is_inside real real_root ≡ true))
    ⊎ IsUnder realpath real roots

under_roots-IsUnder :
    (realpath : Text → Option Text) (real : Text) (roots : List Text)
    → under_roots realpath real roots ≡ true
    → IsUnder realpath real roots
unfolding under_roots
under_roots-IsUnder realpath real [] h = absurd (cc h)
under_roots-IsUnder realpath real (root ∷ roots) h = elim (Option-cases (realpath root)) [
  | inl gone ↦ inr (under_roots-IsUnder realpath real roots (rw (gone, under_roots) at h))
  | inr (r, there) ↦
      if-elim (λ b. b ≡ true → IsUnder realpath real (root ∷ roots)) (is_inside real r) true _
        (λ e _. inl (r, there, e)) (λ _ e. inr (under_roots-IsUnder realpath real roots e))
        (rw (there, under_roots) at h)
]

module _ (resolve : Text → Text) (realpath : Text → Option Text) where
  resolve_cwd-eq-ok :
      (roots : List Text) (cwd real : Text)
      → resolve_cwd resolve realpath roots cwd ≡ ok real
      → (realpath (resolve cwd) ≡ some real) × IsUnder realpath real roots
  unfolding resolve_cwd
  resolve_cwd-eq-ok roots cwd real h =
      if-elim Gives (is_empty (trim cwd)) _ _ (λ _ e. absurd (cc e)) (λ _. resolved) h
    where
      Gives : Outcome Text → Type 0
      Gives o = o ≡ ok real → (realpath (resolve cwd) ≡ some real) × IsUnder realpath real roots

      checked :
          (r : Text)
          → realpath (resolve cwd) ≡ some r
          → Gives (if under_roots realpath r roots then ok r else refused cwd_outside_roots)
      checked r there =
          if-elim Gives (under_roots realpath r roots) _ _
            (λ inside e.
              let same : r ≡ real = ok-inj e in
              (
                there ∙ ap some same,
                subst (λ q. IsUnder realpath q roots) same
                    (under_roots-IsUnder realpath r roots inside),
              ))
            (λ _ e. absurd (cc e))

      resolved : Gives (elim (realpath (resolve cwd)) as (λ _. Outcome Text) [
        | none ↦ refused cwd_outside_roots
        | some r ↦ if under_roots realpath r roots then ok r else refused cwd_outside_roots
      ])
      resolved e = elim (Option-cases (realpath (resolve cwd))) [
        | inl gone ↦ absurd (cc (rw gone at e))
        | inr (r, there) ↦ checked r there (rw there at e)
      ]

  -- What the runner gets to create a session, and all that was checked before.
  pub record IsCreateArgv (s : Settings) (input : CreateInput) (argv : List Text) : Type 0 where
    pub enabled : s.enabled ≡ true
    pub named : is_session_name input.name ≡ true
    pub in_scope : is_out_of_scope (scope_of s.tmux_env) input.name ≡ false
    pub template : List Text
    pub listed : find_profile s.profiles input.profile ≡ own template
    pub cwd : Text
    pub real : realpath (resolve input.cwd) ≡ some cwd
    pub under : IsUnder realpath cwd s.roots
    pub argv_eq :
        argv
        ≡ socket_args_of s.tmux_env
          ++ (codes "new-session"
              ∷ codes "-d"
              ∷ codes "-s"
              ∷ input.name
              ∷ codes "-c"
              ∷ cwd
              ∷ map
                  (λ arg.
                    replace_all (codes "{cwd}") cwd (replace_all (codes "{name}") input.name arg))
                  template)

  pub admit_create-IsCreateArgv :
      (s : Settings) (input : CreateInput) (argv : List Text)
      → admit_create resolve realpath s input ≡ ok argv
      → IsCreateArgv s input argv
  unfolding admit_create
  admit_create-IsCreateArgv s input argv h =
      let (on, h₁) = require-eq-ok s.enabled _ _ h in
      let (named, h₂) = require-eq-ok (is_session_name input.name) _ _ h₁ in
      let (scoped, h₃) =
        require-eq-ok (not (is_out_of_scope (scope_of s.tmux_env) input.name)) _ _ h₂ in
      let (profile, found, h₄) =
        >>=-eq-ok (found_profile (find_profile s.profiles input.profile)) _ h₃ in
      let (cwd, resolved, h₅) = >>=-eq-ok (resolve_cwd resolve realpath s.roots input.cwd) _ h₄ in
      let (words, filled, h₆) = >>=-eq-ok (fill_template profile input.name cwd) _ h₅ in
      let (template, some_profile, words_eq) =
        fill_template-eq-ok profile input.name cwd words filled in
      let (real, under) = resolve_cwd-eq-ok s.roots input.cwd cwd resolved in
      record {
        enabled = on;
        named = named;
        in_scope = not-eq-true _ scoped;
        template = template;
        listed = found_profile-eq-ok _ template (found ∙ ap ok some_profile);
        cwd = cwd;
        real = real;
        under = under;
        argv_eq =
            sym (ok-inj h₆)
            ∙ ap
                (λ w.
                  socket_args_of s.tmux_env
                  ++ (codes "new-session"
                      ∷ codes "-d"
                      ∷ codes "-s"
                      ∷ input.name
                      ∷ codes "-c"
                      ∷ cwd
                      ∷ w))
                words_eq;
      }

-- What the runner gets to kill a session, and all that was checked before.
pub record IsKillArgv (s : Settings) (input : KillInput) (argv : List Text) : Type 0 where
  pub enabled : s.enabled ≡ true
  pub named : is_session_name input.name ≡ true
  pub in_scope : is_out_of_scope (scope_of s.tmux_env) input.name ≡ false
  pub unprotected : includes s.protected_sessions input.name ≡ false
  pub argv_eq :
      argv ≡ socket_args_of s.tmux_env ++ (codes "kill-session" ∷ codes "-t" ∷ input.name ∷ [])

pub admit_kill-IsKillArgv :
    (s : Settings) (input : KillInput) (argv : List Text)
    → admit_kill s input ≡ ok argv
    → IsKillArgv s input argv
unfolding admit_kill
admit_kill-IsKillArgv s input argv h =
    let (on, h₁) = require-eq-ok s.enabled _ _ h in
    let (named, h₂) = require-eq-ok (is_session_name input.name) _ _ h₁ in
    let (scoped, h₃) =
      require-eq-ok (not (is_out_of_scope (scope_of s.tmux_env) input.name)) _ _ h₂ in
    let (free, h₄) = require-eq-ok (not (includes s.protected_sessions input.name)) _ _ h₃ in
    record {
      enabled = on;
      named = named;
      in_scope = not-eq-true _ scoped;
      unprotected = not-eq-true _ free;
      argv_eq = sym (ok-inj h₄);
    }

-- ===== src/Console/HttpApp/Authority.antt =====
-- console/src/http-app.ts, `checkRequestAuthority`: whose requests pass.
use agent_runtime_mcp.Base.{
  Option, none, some, [], ◌∷◌, Text, text_eq, text_eq_iff, ◌≡◌, ◌≢◌, ◌↔◌, true-absurd, refl, ◌∙◌,
  sym, subst, some-inj, none-absurd, Option-cases, Bool-cases, inl, inr, if◌then◌else◌,
}
use agent_runtime_mcp.Console.HttpApp.{
  World, Request, AuthorityCheck, authorized, wrong_host, bad_origin, wrong_origin, check_origin,
  check_given_origin, check_request_authority,
}

-- The same authority, upper and lower case aside.
abbrev pub IsAuthority : World → Text → Text → Type 0
IsAuthority w expected host = w.lower_case host ≡ w.lower_case expected

-- No origin, an empty one, or one whose URL has the authority.
abbrev pub IsOrigin : World → Text → Option Text → Type 0
IsOrigin w expected none = Unit
IsOrigin w expected (some []) = Unit
IsOrigin w expected (some (c ∷ origin)) =
    (host : Text) × (w.origin_host (c ∷ origin) ≡ some host) × IsAuthority w expected host

-- The request names the authority as its host, and comes from no other origin.
abbrev pub IsOurs : World → Request → Text → Type 0
IsOurs w r expected =
    (host : Text) × (r.host ≡ some host)
    × IsAuthority w expected host
    × IsOrigin w expected r.origin

bad_origin-other : bad_origin ≢ authorized
bad_origin-other e = cc

wrong_origin-other : wrong_origin ≢ authorized
wrong_origin-other e = cc

wrong_host-other : wrong_host ≢ authorized
wrong_host-other e = cc

-- A text is accepted exactly if it is the authority.
test_iff :
    (w : World) (expected host : Text) (yes' no' : AuthorityCheck)
    → no' ≢ authorized
    → yes' ≡ authorized
    → ((if text_eq (w.lower_case host) (w.lower_case expected) then yes' else no') ≡ authorized)
      ↔ IsAuthority w expected host
test_iff w expected host yes' no' other same =
    elim (Bool-cases (text_eq (w.lower_case host) (w.lower_case expected))) [
      | inl e ↦ ((λ _. (text_eq_iff _ _).0 e), (λ _. rw e same))
      | inr e ↦
          ((λ h. absurd (other (rw e at h))), (λ h. true-absurd (sym ((text_eq_iff _ _).1 h) ∙ e)))
    ]

check_given_origin_iff :
    (w : World) (expected : Text) (origin : Option Text)
    → (check_given_origin w expected origin ≡ authorized) ↔ IsOrigin w expected origin
check_given_origin_iff w expected none = ((λ _. tt), (λ _. refl))
check_given_origin_iff w expected (some []) = ((λ _. tt), (λ _. refl))
check_given_origin_iff w expected (some (c ∷ origin)) =
    elim (Option-cases (w.origin_host (c ∷ origin))) [
      | inl bad ↦ (
        (λ h. absurd (bad_origin-other (rw (bad, check_origin) at h))),
        (λ h. none-absurd (sym bad ∙ h.1)),
      )
      | inr (host, found) ↦
          let test = test_iff w expected host authorized wrong_origin wrong_origin-other refl in
          (
            (λ h. (host, found, test.0 (rw (found, check_origin) at h))),
            (λ (other, found', same).
                rw (found, check_origin)
                  (test.1 (subst (IsAuthority w expected) (some-inj (sym found' ∙ found)) same))),
          )
    ]

-- A request passes exactly if it is for the authority of the console, and from no other origin.
pub check_request_authority_iff :
    (w : World) (r : Request) (expected : Text)
    → (check_request_authority w r expected ≡ authorized) ↔ IsOurs w r expected
unfolding check_request_authority
check_request_authority_iff w r expected = elim (Option-cases r.host) [
  | inl bad ↦ (
    (λ h. absurd (wrong_host-other (rw (bad, check_request_authority) at h))),
    (λ ours. none-absurd (sym bad ∙ ours.1)),
  )
  | inr (host, found) ↦ elim (Bool-cases (text_eq (w.lower_case host) (w.lower_case expected))) [
    | inl e ↦ (
      (λ h. (
        host,
        found,
        (text_eq_iff _ _).0 e,
        (check_given_origin_iff w expected r.origin).0
            (rw (found, e, check_request_authority) at h),
      )),
      (λ ours.
          rw (found, e, check_request_authority)
            ((check_given_origin_iff w expected r.origin).1 ours.3)),
    )
    | inr e ↦ (
      (λ h. absurd (wrong_host-other (rw (found, e, check_request_authority) at h))),
      (λ ours. true-absurd (
          sym (
            (text_eq_iff _ _).1
              (subst (IsAuthority w expected) (some-inj (sym ours.1 ∙ found)) ours.2))
          ∙ e)),
    )
  ]
]

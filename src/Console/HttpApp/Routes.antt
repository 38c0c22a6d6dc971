-- ===== src/Console/HttpApp/Routes.antt =====
-- console/src/http-app.ts: the paths of the routes of one channel.
use agent_runtime_mcp.Base.{
  ℕ, Bool, true, false, ◌&&◌, some, List, [], ◌∷◌, Text, codes, text_eq, text_eq_iff, split, join,
  Lacks, split-join, join-split, split-All-Lacks, All, ◌≡◌, ◌≢◌, ◌↔◌, refl, sym, ◌∙◌, ap, subst,
  some-inj, none-absurd, Option, Option-cases, Bool-cases, inl, inr, arith,
}
use agent_runtime_mcp.Console.HttpApp.{channel_segments, channel_route}
use agent_runtime_mcp.Console.HttpApp.Mutations.{Kind, text_kind, control_kind}
use agent_runtime_mcp.Console.HttpApp.Router.{
  HistoryKind, history_kind, events_kind, mutation_route, history_route,
}
use agent_runtime_mcp.Console.HttpApp.Upgrade.{terminal_route}

abbrev pub segments_of : Text → Text → List Text
segments_of id last = [] ∷ codes "api" ∷ codes "channels" ∷ id ∷ last ∷ []

-- `/api/channels/<id>/<last>`
abbrev pub channel_path : Text → Text → Text
channel_path id last = join (b'/' ∷ []) (segments_of id last)

and-eq-true : (a b : Bool) → (a && b) ≡ true → (a ≡ true) × (b ≡ true)
and-eq-true true b h = (refl, h)
and-eq-true false b h = absurd (cc h)

cons-nil-absurd : {c : ℕ} {s : Text} → c ∷ s ≢ []
cons-nil-absurd e = cc

api-Lacks : Lacks b'/' (codes "api")
api-Lacks = ground arith

channels-Lacks : Lacks b'/' (codes "channels")
channels-Lacks = ground arith

channel_segments_self :
    (id last : Text) → id ≢ [] → channel_segments (segments_of id last) ≡ some (id, last)
unfolding text_eq
channel_segments_self [] last h = absurd (h refl)
channel_segments_self (c ∷ id) last h = refl

channel_segments-some :
    (segments : List Text) (id last : Text)
    → channel_segments segments ≡ some (id, last)
    → (segments ≡ segments_of id last) × (id ≢ [])
channel_segments-some [] id last h = none-absurd h
channel_segments-some ((x ∷ a) ∷ ss) id last h = none-absurd h
channel_segments-some ([] ∷ []) id last h = none-absurd h
channel_segments-some ([] ∷ b ∷ []) id last h = none-absurd h
channel_segments-some ([] ∷ b ∷ c ∷ []) id last h = none-absurd h
channel_segments-some ([] ∷ b ∷ c ∷ [] ∷ ss) id last h = none-absurd h
channel_segments-some ([] ∷ b ∷ c ∷ (d ∷ e) ∷ []) id last h = none-absurd h
channel_segments-some ([] ∷ b ∷ c ∷ (d ∷ e) ∷ f ∷ g ∷ ss) id last h = none-absurd h
channel_segments-some ([] ∷ b ∷ c ∷ (d ∷ e) ∷ f ∷ []) id last h =
    elim (Bool-cases (text_eq b (codes "api") && text_eq c (codes "channels"))) [
      | inr other ↦ none-absurd (rw (other) at h)
      | inl both ↦
          let parts = and-eq-true (text_eq b (codes "api")) (text_eq c (codes "channels")) both in
          let api = (text_eq_iff b (codes "api")).0 parts.0 in
          let channels = (text_eq_iff c (codes "channels")).0 parts.1 in
          let found : ◌≡◌ {A = Text × Text} (d ∷ e, f) (id, last) = some-inj (rw both at h) in
          let same_id = ap (λ (p : Text × Text). p.0) found in
          let same_last = ap (λ (p : Text × Text). p.1) found in
          (cc, λ empty. cons-nil-absurd (same_id ∙ empty))
    ]

channel_route_iff :
    (path id last : Text)
    → (channel_route path ≡ some (id, last))
      ↔ ((path ≡ channel_path id last) × (id ≢ []) × Lacks b'/' id × Lacks b'/' last)
unfolding channel_route
channel_route_iff path id last = (
  (λ h.
      let (same, given) = channel_segments-some (split b'/' path) id last h in
      let lacks = subst (All (Lacks b'/')) same (split-All-Lacks b'/' path) in
      (
        sym (join-split b'/' path) ∙ ap (join (b'/' ∷ [])) same,
        given,
        lacks.1.1.1.0,
        lacks.1.1.1.1.0,
      )),
  (λ (e, given, l, m). rw e (
      ap channel_segments (
        split-join b'/' [] (codes "api" ∷ codes "channels" ∷ id ∷ last ∷ [])
          (tt, (api-Lacks, (channels-Lacks, (l, (m, tt))))))
      ∙ channel_segments_self id last given)),
)

-- The path of a channel under a fixed last name; the id is not empty and has no slash.
abbrev pub IsChannelPath : (path id last : Text) → Type 0
IsChannelPath path id last = (path ≡ channel_path id last) × (id ≢ []) × Lacks b'/' id

abbrev pub kind_name : Kind → Text
kind_name text_kind = codes "text"
kind_name control_kind = codes "control"

abbrev pub history_name : HistoryKind → Text
history_name history_kind = codes "history"
history_name events_kind = codes "events"

channel_route-IsChannelPath :
    (path id last : Text) → channel_route path ≡ some (id, last) → IsChannelPath path id last
channel_route-IsChannelPath path id last h =
    let (e, given, l, _) = (channel_route_iff path id last).0 h in (e, given, l)

IsChannelPath-channel_route :
    (path id last : Text)
    → Lacks b'/' last
    → IsChannelPath path id last
    → channel_route path ≡ some (id, last)
IsChannelPath-channel_route path id last m (e, given, l) =
    (channel_route_iff path id last).1 (e, given, l, m)

-- A route that was found is found for its channel under the name that the test compared.
named-IsChannelPath :
    (path found last name id : Text)
    → channel_route path ≡ some (found, last)
    → text_eq last name ≡ true
    → found ≡ id
    → IsChannelPath path id name
named-IsChannelPath path found last name id e test same =
    subst (λ i. IsChannelPath path i name) same
      (subst (λ n. IsChannelPath path found n) ((text_eq_iff last name).0 test)
        (channel_route-IsChannelPath path found last e))

some-pair-inj :
    {K : Type 0} {a b : Text} {k l : K}
    → ◌≡◌ {A = Option (Text × K)} (some (a, k)) (some (b, l))
    → (a ≡ b) × (k ≡ l)
some-pair-inj {K} e =
    let p = some-inj e in (ap (λ (x : Text × K). x.0) p, ap (λ (x : Text × K). x.1) p)

mutation_route-some :
    (path id : Text) (kind : Kind)
    → mutation_route path ≡ some (id, kind)
    → IsChannelPath path id (kind_name kind)
unfolding mutation_route
mutation_route-some path id kind h = elim (Option-cases (channel_route path)) [
  | inl other ↦ none-absurd (rw (other, mutation_route) at h)
  | inr ((found, last), e) ↦ elim (Bool-cases (text_eq last (codes "text"))) [
    | inl test ↦
        let (same, k) = some-pair-inj (rw (e, test, mutation_route) at h) in
        subst (λ k. IsChannelPath path id (kind_name k)) k
          (named-IsChannelPath path found last (codes "text") id e test same)
    | inr not_first ↦ elim (Bool-cases (text_eq last (codes "control"))) [
      | inl test ↦
          let (same, k) = some-pair-inj (rw (e, not_first, test, mutation_route) at h) in
          subst (λ k. IsChannelPath path id (kind_name k)) k
            (named-IsChannelPath path found last (codes "control") id e test same)
      | inr neither ↦ none-absurd (rw (e, not_first, neither, mutation_route) at h)
    ]
  ]
]

some-mutation_route :
    (path id : Text) (kind : Kind)
    → IsChannelPath path id (kind_name kind)
    → mutation_route path ≡ some (id, kind)
unfolding mutation_route text_eq
some-mutation_route path id text_kind h =
    rw (IsChannelPath-channel_route path id (codes "text") (ground arith) h, mutation_route) refl
some-mutation_route path id control_kind h =
    rw (IsChannelPath-channel_route path id (codes "control") (ground arith) h, mutation_route) refl

history_route-some :
    (path id : Text) (kind : HistoryKind)
    → history_route path ≡ some (id, kind)
    → IsChannelPath path id (history_name kind)
unfolding history_route
history_route-some path id kind h = elim (Option-cases (channel_route path)) [
  | inl other ↦ none-absurd (rw (other, history_route) at h)
  | inr ((found, last), e) ↦ elim (Bool-cases (text_eq last (codes "history"))) [
    | inl test ↦
        let (same, k) = some-pair-inj (rw (e, test, history_route) at h) in
        subst (λ k. IsChannelPath path id (history_name k)) k
          (named-IsChannelPath path found last (codes "history") id e test same)
    | inr not_first ↦ elim (Bool-cases (text_eq last (codes "events"))) [
      | inl test ↦
          let (same, k) = some-pair-inj (rw (e, not_first, test, history_route) at h) in
          subst (λ k. IsChannelPath path id (history_name k)) k
            (named-IsChannelPath path found last (codes "events") id e test same)
      | inr neither ↦ none-absurd (rw (e, not_first, neither, history_route) at h)
    ]
  ]
]

some-history_route :
    (path id : Text) (kind : HistoryKind)
    → IsChannelPath path id (history_name kind)
    → history_route path ≡ some (id, kind)
unfolding history_route text_eq
some-history_route path id history_kind h =
    rw (IsChannelPath-channel_route path id (codes "history") (ground arith) h, history_route) refl
some-history_route path id events_kind h =
    rw (IsChannelPath-channel_route path id (codes "events") (ground arith) h, history_route) refl

terminal_route-some :
    (path id : Text) → terminal_route path ≡ some id → IsChannelPath path id (codes "terminal")
unfolding terminal_route
terminal_route-some path id h = elim (Option-cases (channel_route path)) [
  | inl other ↦ none-absurd (rw (other, terminal_route) at h)
  | inr ((found, last), e) ↦ elim (Bool-cases (text_eq last (codes "terminal"))) [
    | inl test ↦
        named-IsChannelPath path found last (codes "terminal") id e test
          (some-inj (rw (e, test, terminal_route) at h))
    | inr other ↦ none-absurd (rw (e, other, terminal_route) at h)
  ]
]

some-terminal_route :
    (path id : Text) → IsChannelPath path id (codes "terminal") → terminal_route path ≡ some id
unfolding terminal_route text_eq
some-terminal_route path id h =
    rw (IsChannelPath-channel_route path id (codes "terminal") (ground arith) h, terminal_route)
      refl

-- The three patterns of routes match exactly these paths, each with an id that is not empty and has no
-- slash, and give back the id: `/api/channels/<id>/text` and `/control` for a POST,
-- `/api/channels/<id>/history` and `/events` for a GET, `/api/channels/<id>/terminal` for an upgrade.
pub channel_routes_iff :
    (path id : Text) (kind : Kind) (history : HistoryKind)
    → ((mutation_route path ≡ some (id, kind)) ↔ IsChannelPath path id (kind_name kind))
      × ((history_route path ≡ some (id, history)) ↔ IsChannelPath path id (history_name history))
      × ((terminal_route path ≡ some id) ↔ IsChannelPath path id (codes "terminal"))
channel_routes_iff path id kind history = (
  (mutation_route-some path id kind, some-mutation_route path id kind),
  (history_route-some path id history, some-history_route path id history),
  (terminal_route-some path id, some-terminal_route path id),
)

-- ===== src/Runtime/TmuxBackend/Listing.antt =====
-- src/tmux-backend.ts: which channels are listed and found, with any runner.
use agent_runtime_mcp.Base.{
  ℕ, zero, suc, ◌≤◌, Bool, true, false, not, some, List, [], ◌∷◌, Text, codes, is_empty, split,
  text_eq, text_eq_iff, length, length-take, take, filter, find, All, some-inj, Option-cases,
  Bool-cases, ◌≡◌, refl, sym, ap, subst, ◌∙◌, arith, inl, inr,
}
use agent_runtime_mcp.Runtime.Errors.{ok, ok-inj}
use agent_runtime_mcp.Runtime.TmuxBackend.Config.{is_session_allowed}
use agent_runtime_mcp.Runtime.TmuxBackend.Panes.{
  TmuxPane, parse_pane_lines, channel_id_for_pane, parse_channel_id,
}
use agent_runtime_mcp.Runtime.TmuxBackend.Panes.Ids.{parse_channel_id-eq-ok}
use agent_runtime_mcp.Runtime.TmuxBackend.{
  Backend, Command, Runner, Channel, ◌>>=◌, lift, run_tmux, list_panes, visible_panes,
  list_visible_panes, to_channel, to_channels, list_channels, find_channel, get_channel,
}
use agent_runtime_mcp.Runtime.TmuxBackend.Reads.Channel.{>>=-eq-ok}
use agent_runtime_mcp.Runtime.TmuxBackend.Writes.{Result-cases}

module _ {A : Type 0} (P : A → Type 0) where
  All-take : (n : ℕ) (xs : List A) → All P xs → All P (take n xs)
  All-take zero xs h = tt
  All-take (suc n) [] h = tt
  All-take (suc n) (x ∷ xs) h = (h.0, All-take n xs h.1)

  All-filter :
      (test : A → Bool) (xs : List A) → ((x : A) → test x ≡ true → P x) → All P (filter test xs)
  All-filter test [] h = tt
  All-filter test (x ∷ xs) h = elim (Bool-cases (test x)) [
    | inl yes_here ↦ rw (yes_here, All) (h x yes_here, All-filter test xs h)
    | inr no_here ↦ rw (no_here, All) (All-filter test xs h)
  ]

  find-All :
      (test : A → Bool) (xs : List A) (x : A)
      → find test xs ≡ some x
      → All P xs
      → P x × (test x ≡ true)
  find-All test [] x e h = absurd (cc e)
  find-All test (y ∷ xs) x e h = elim (Bool-cases (test y)) [
    | inl yes_here ↦
        let same : y ≡ x = some-inj (rw (yes_here, find) at e) in
        (subst P same h.0, subst (λ z. test z ≡ true) same yes_here)
    | inr no_here ↦ find-All test xs x (rw (no_here, find) at e) h.1
  ]

module _ (b : Backend) (runner : Runner) where
  abbrev IsAllowedPane : TmuxPane → Type 0
  IsAllowedPane pane = is_session_allowed b.config pane.session_name ≡ true

  -- A channel of an allowed session, under the identifier of its pane.
  pub record IsVisible (c : Channel) : Type 0 where
    pub allowed : is_session_allowed b.config c.pane.session_name ≡ true
    pub identified : channel_id_for_pane b.fingerprint c.pane.pane_id ≡ ok c.channel_id

  visible_panes-eq-ok :
      (stdout : Text) (panes : List TmuxPane)
      → visible_panes b runner stdout ≡ ok panes
      → (length panes ≤ b.config.max_channels) × All IsAllowedPane panes
  unfolding visible_panes
  visible_panes-eq-ok stdout panes h =
      elim (Result-cases
        (parse_pane_lines (filter (λ line. not (is_empty line)) (split 0x0a stdout)))) [
          | inr (t, e) ↦ absurd (cc (rw (e, visible_panes) at h))
          | inl (all, e) ↦
              let allowed = λ (p : TmuxPane). is_session_allowed b.config p.session_name in
              let same : take b.config.max_channels (filter allowed all) ≡ panes =
                ok-inj (rw (e, visible_panes) at h) in
              subst (λ ps. (length ps ≤ b.config.max_channels) × All IsAllowedPane ps) same
                (
                  omega (arith, length-take b.config.max_channels (filter allowed all)),
                  All-take IsAllowedPane b.config.max_channels (filter allowed all)
                      (All-filter IsAllowedPane allowed all (λ p yes_here. yes_here)),
                )
        ]

  to_channel-eq-ok :
      (pane : TmuxPane) (c : Channel)
      → to_channel b runner pane ≡ ok c
      → (c.pane ≡ pane) × (channel_id_for_pane b.fingerprint pane.pane_id ≡ ok c.channel_id)
  unfolding to_channel
  to_channel-eq-ok pane c h = elim (Result-cases (channel_id_for_pane b.fingerprint pane.pane_id)) [
    | inr (t, e) ↦ absurd (cc (rw (e, to_channel) at h))
    | inl (id, e) ↦
        let same = ok-inj (rw (e, to_channel) at h) in
        (ap (λ (x : Channel). x.pane) (sym same), e ∙ ap (λ (x : Channel). ok x.channel_id) same)
  ]

  to_channel-IsVisible :
      (pane : TmuxPane) (c : Channel)
      → to_channel b runner pane ≡ ok c
      → IsAllowedPane pane
      → IsVisible c
  to_channel-IsVisible pane c h allowed =
      let (same, id) = to_channel-eq-ok pane c h in
      record {
        allowed = subst IsAllowedPane (sym same) allowed;
        identified = ap (λ (p : TmuxPane). channel_id_for_pane b.fingerprint p.pane_id) same ∙ id;
      }

  list_visible_panes-eq-ok :
      (log : List Command) (panes : List TmuxPane)
      → (list_visible_panes b runner log).1 ≡ ok panes
      → (length panes ≤ b.config.max_channels) × All IsAllowedPane panes
  unfolding list_visible_panes
  list_visible_panes-eq-ok log panes h =
      let (stdout, ran, parsed) =
        >>=-eq-ok (run_tmux b runner (list_panes b runner) (codes "list-panes") false)
          (λ out. lift (visible_panes b runner out)) log h in
      visible_panes-eq-ok stdout panes parsed

  to_channels-eq-ok :
      (panes : List TmuxPane) (cs : List Channel)
      → to_channels b runner panes ≡ ok cs
      → All IsAllowedPane panes
      → (length cs ≡ length panes) × All IsVisible cs
  to_channels-eq-ok [] cs h all =
      subst (λ xs. (length xs ≡ 0) × All IsVisible xs) (ok-inj h) (refl, tt)
  to_channels-eq-ok (p ∷ ps) cs h (allowed, all) = elim (Result-cases (to_channel b runner p)) [
    | inr (t, e) ↦ absurd (cc (rw (e, to_channels) at h))
    | inl (c, e) ↦ elim (Result-cases (to_channels b runner ps)) [
      | inr (t, e') ↦ absurd (cc (rw (e, e', to_channels) at h))
      | inl (rest, e') ↦
          let (count, visible) = to_channels-eq-ok ps rest e' all in
          subst (λ xs. (length xs ≡ suc (length ps)) × All IsVisible xs)
            (ok-inj (rw (e, e', to_channels) at h))
            (ap suc count, (to_channel-IsVisible p c e allowed, visible))
    ]
  ]

  -- The channels that are listed are at most as many as configured, each is a pane of a session in the
  -- configured scope, and its identifier is that of its pane.
  pub list_channels-IsVisible :
      (log : List Command) (cs : List Channel)
      → (list_channels b runner log).1 ≡ ok cs
      → (length cs ≤ b.config.max_channels) × All IsVisible cs
  unfolding list_channels
  list_channels-IsVisible log cs h =
      let (panes, listed, made) =
        >>=-eq-ok (list_visible_panes b runner) (λ ps. lift (to_channels b runner ps)) log h in
      let (few, allowed) = list_visible_panes-eq-ok log panes listed in
      let (count, visible) = to_channels-eq-ok panes cs made allowed in
      (omega (arith, count, few), visible)

  -- A channel that is found is the one asked for, and a pane of a session in the configured scope.
  pub get_channel-IsVisible :
      (channel_id : Text) (log : List Command) (c : Channel)
      → (get_channel b runner channel_id log).1 ≡ ok c
      → IsVisible c × (c.channel_id ≡ channel_id)
  unfolding get_channel find_channel
  get_channel-IsVisible channel_id log c h =
      let (pane_id, parsed, h₁) =
        >>=-eq-ok (lift (parse_channel_id b.fingerprint channel_id))
          (λ pane.
            list_visible_panes b runner >>= λ ps. lift (find_channel b runner channel_id pane ps))
          log h in
      let (panes, listed, h₂) =
        >>=-eq-ok (list_visible_panes b runner)
          (λ ps. lift (find_channel b runner channel_id pane_id ps)) log h₁ in
      let (few, allowed) = list_visible_panes-eq-ok log panes listed in
      elim (Option-cases (find (λ (p : TmuxPane). text_eq p.pane_id pane_id) panes)) [
        | inl missing_pane ↦ absurd (cc (rw (missing_pane, find_channel) at h₂))
        | inr (pane, found) ↦
            let made : to_channel b runner pane ≡ ok c = rw (found, find_channel) at h₂ in
            let (allowed_pane, same) =
              find-All IsAllowedPane (λ (p : TmuxPane). text_eq p.pane_id pane_id) panes pane found
                allowed in
            let visible = to_channel-IsVisible pane c made allowed_pane in
            let (_, id) = to_channel-eq-ok pane c made in
            let name : pane.pane_id ≡ pane_id = (text_eq_iff pane.pane_id pane_id).0 same in
            (
              visible,
              ok-inj (
                  sym id
                  ∙ ap (channel_id_for_pane b.fingerprint) name
                  ∙ parse_channel_id-eq-ok b.fingerprint channel_id pane_id parsed),
            )
      ]

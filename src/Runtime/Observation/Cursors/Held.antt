-- ===== src/Runtime/Observation/Cursors/Held.antt =====
-- src/observation.ts: how long a cursor is held and lets a waiter in.
use agent_runtime_mcp.Base.{
  ℕ, ◌+◌, ◌≤◌, ◌<◌, true, false, Option, none, some, none-absurd, Bool-cases, inl, inr, List, [],
  ◌∷◌, ◌++◌, Text, text_eq, text_eq_self, ltb, leb, length, if-elim, ◌≡◌, refl, sym, subst, ap, ◌∙◌,
  some-inj, All, arith,
}
use agent_runtime_mcp.Runtime.Errors.{ChannelErrorCode, Result, ok, ok-inj}
use agent_runtime_mcp.Runtime.Observation.{
  Observer, Token, max_tokens, max_waiters_global, max_waiters_per_channel, has_expired,
  validate_token,
}
use agent_runtime_mcp.Runtime.Observation.Cursors.{
  TokenStore, drop_expired, token_of, issue, admit_wait, find_token, admit, Issue, issue_all,
  IsLater,
}

length-drop_expired :
    (now : ℕ) (tokens : TokenStore) → length (drop_expired now tokens) ≤ length tokens
length-drop_expired now [] = omega arith
length-drop_expired now ((cursor, t) ∷ tokens) = ground (arith, length-drop_expired now tokens)

length-append_one :
    (p : Text × Token) (tokens : TokenStore) → length (tokens ++ p ∷ []) ≡ length tokens + 1
length-append_one p [] = refl
length-append_one p (q ∷ tokens) = omega (arith, length-append_one p tokens)

-- The number of held cursors stays within its limit.
length-issue :
    (now : ℕ) (cursor : Text) (o : Observer) (seq : ℕ) (tokens : TokenStore)
    → length tokens ≤ max_tokens
    → length (issue now cursor o seq tokens).0 ≤ max_tokens
unfolding issue
length-issue now cursor o seq tokens l =
    if-elim (λ (r : TokenStore × Result Token). length r.0 ≤ max_tokens)
      (leb max_tokens (length (drop_expired now tokens))) _ _
      (λ _. omega (arith, length-drop_expired now tokens, l))
      (λ few.
        ground
          (arith, length-append_one (cursor, token_of now o seq) (drop_expired now tokens), few))

issue-eq :
    (now : ℕ) (cursor : Text) (o : Observer) (seq : ℕ) (tokens : TokenStore) (t : Token)
    → (issue now cursor o seq tokens).1 ≡ ok t
    → t ≡ token_of now o seq
unfolding issue
issue-eq now cursor o seq tokens t =
    if-elim (λ (r : TokenStore × Result Token). r.1 ≡ ok t → t ≡ token_of now o seq)
      (leb max_tokens (length (drop_expired now tokens))) _ _ (λ _ e. absurd (cc e))
      (λ _ e. sym (ok-inj e))

le-ltb : (a b : ℕ) → a ≤ b → ltb b a ≡ false
le-ltb a b l = ground (arith, l)

lt-leb : (a b : ℕ) → a < b → leb b a ≡ false
lt-leb a b l = ground (arith, l)

-- The observer as it is later: the same one, whatever it has seen since.
pub record IsSame (o o' : Observer) : Type 0 where
  pub id_eq : o'.id ≡ o.id
  pub channel_eq : o'.channel_id ≡ o.channel_id
  pub instance_eq : o'.instance_id ≡ o.instance_id

token_of-admit_wait :
    (now later : ℕ) (o o' : Observer) (seq count : ℕ)
    → IsSame o o'
    → later ≤ (token_of now o seq).exp
    → later ≤ o'.valid_until
    → has_expired o'.failure ≡ false
    → o'.evicted ≤ seq
    → count < max_waiters_global
    → o'.waiters < max_waiters_per_channel
    → admit_wait later o.channel_id (token_of now o seq) count o' ≡ ok tt
unfolding admit_wait validate_token
token_of-admit_wait now later o o' seq count same fresh leased alive kept few few' =
    rw
      (
        same.id_eq,
        same.instance_eq,
        text_eq_self o.id,
        text_eq_self o.channel_id,
        text_eq_self o.instance_id,
        alive,
        le-ltb _ _ fresh,
        le-ltb _ _ leased,
        le-ltb _ _ kept,
        lt-leb _ _ few,
        lt-leb _ _ few',
      )
      refl

find_token-append_one :
    (cursor : Text) (t : Token) (tokens : TokenStore)
    → find_token cursor tokens ≡ none
    → find_token cursor (tokens ++ (cursor, t) ∷ []) ≡ some t
find_token-append_one cursor t [] h = rw (text_eq_self cursor) refl
find_token-append_one cursor t ((c, u) ∷ tokens) h = elim (Bool-cases (text_eq c cursor)) [
  | inl same ↦ none-absurd (sym (rw (same, find_token) at h))
  | inr other ↦
      rw (other, find_token) (find_token-append_one cursor t tokens (rw (other, find_token) at h))
]

find_token-append_other :
    (cursor : Text) (p : Text × Token) (tokens : TokenStore) (o : Option Token)
    → text_eq p.0 cursor ≡ false
    → find_token cursor tokens ≡ o
    → find_token cursor (tokens ++ p ∷ []) ≡ o
find_token-append_other cursor p [] o other h = rw other h
find_token-append_other cursor p ((c, u) ∷ tokens) o other h =
    if-elim (λ r. r ≡ o) (text_eq c cursor) _ _ (λ same. rw (same, find_token) at h)
      (λ no_match. find_token-append_other cursor p tokens o other (rw (no_match, find_token) at h))

drop_expired-kept :
    (now : ℕ) (c : Text) (u : Token) (tokens : TokenStore)
    → ltb u.exp now ≡ false
    → drop_expired now ((c, u) ∷ tokens) ≡ (c, u) ∷ drop_expired now tokens
drop_expired-kept now c u tokens h = ground (arith, h)

drop_expired-left_out :
    (now : ℕ) (c : Text) (u : Token) (tokens : TokenStore)
    → ltb u.exp now ≡ true
    → drop_expired now ((c, u) ∷ tokens) ≡ drop_expired now tokens
drop_expired-left_out now c u tokens h = ground (arith, h)

-- A cursor that is not expired stays where expired ones are dropped, and none is found that was not.
find_token-drop_expired :
    (now : ℕ) (cursor : Text) (t : Token) (tokens : TokenStore)
    → now ≤ t.exp
    → find_token cursor tokens ≡ some t
    → find_token cursor (drop_expired now tokens) ≡ some t
find_token-drop_expired now cursor t [] l h = h
find_token-drop_expired now cursor t ((c, u) ∷ tokens) l h = elim (Bool-cases (ltb u.exp now)) [
  | inr lives ↦
      ap (find_token cursor) (drop_expired-kept now c u tokens lives)
      ∙ if-elim (λ r. r ≡ some t) (text_eq c cursor) _ _ (λ same. rw (same, find_token) at h)
          (λ other. find_token-drop_expired now cursor t tokens l (rw (other, find_token) at h))
  | inl expired ↦
      ap (find_token cursor) (drop_expired-left_out now c u tokens expired)
      ∙ past expired (find_token-drop_expired now cursor t tokens l)
]
  where
    past :
        ltb u.exp now ≡ true
        → (find_token cursor tokens ≡ some t → find_token cursor (drop_expired now tokens) ≡ some t)
        → find_token cursor (drop_expired now tokens) ≡ some t
    past expired rest = elim (Bool-cases (text_eq c cursor)) [
      | inl same ↦
          let same_exp : u.exp ≡ t.exp =
            ap (λ (x : Token). x.exp) (some-inj (rw (same, find_token) at h)) in
          absurd (ground (arith, expired, same_exp, l))
      | inr other ↦ rest (rw (other, find_token) at h)
    ]

none-drop_expired :
    (now : ℕ) (cursor : Text) (tokens : TokenStore)
    → find_token cursor tokens ≡ none
    → find_token cursor (drop_expired now tokens) ≡ none
none-drop_expired now cursor [] h = h
none-drop_expired now cursor ((c, u) ∷ tokens) h =
    let rest = none-drop_expired now cursor tokens (unfound h) in
    elim (Bool-cases (ltb u.exp now)) [
      | inr lives ↦
          ap (find_token cursor) (drop_expired-kept now c u tokens lives)
          ∙ if-elim (λ r. r ≡ none) (text_eq c cursor) _ _ (λ same. rw (same, find_token) at h)
              (λ _. rest)
      | inl expired ↦ ap (find_token cursor) (drop_expired-left_out now c u tokens expired) ∙ rest
    ]
  where
    unfound : find_token cursor ((c, u) ∷ tokens) ≡ none → find_token cursor tokens ≡ none
    unfound e = elim (Bool-cases (text_eq c cursor)) [
      | inl same ↦ none-absurd (sym (rw (same, find_token) at e))
      | inr other ↦ rw (other, find_token) at e
    ]

-- A cursor that was issued is held.
issue-find_token :
    (now : ℕ) (cursor : Text) (o : Observer) (seq : ℕ) (tokens : TokenStore) (t : Token)
    → (issue now cursor o seq tokens).1 ≡ ok t
    → find_token cursor tokens ≡ none
    → find_token cursor (issue now cursor o seq tokens).0 ≡ some t
unfolding issue
issue-find_token now cursor o seq tokens t e fresh =
    if-elim (λ (r : TokenStore × Result Token). r.1 ≡ ok t → find_token cursor r.0 ≡ some t)
      (leb max_tokens (length (drop_expired now tokens))) _ _ (λ _ e. absurd (cc e))
      (λ _ e.
        find_token-append_one cursor (token_of now o seq) (drop_expired now tokens)
          (none-drop_expired now cursor tokens fresh)
        ∙ ap some (ok-inj e))
      e

-- It is still held after later cursors were issued.
issue_all-find_token :
    (is : List Issue) (cursor : Text) (t : Token) (tokens : TokenStore)
    → All (IsLater cursor t) is
    → find_token cursor tokens ≡ some t
    → find_token cursor (issue_all is tokens) ≡ some t
unfolding issue_all issue
issue_all-find_token [] cursor t tokens later h = h
issue_all-find_token (i ∷ is) cursor t tokens ((early, other), later) h =
    let kept = find_token-drop_expired i.now cursor t tokens early h in
    issue_all-find_token is cursor t _ later (
      if-elim (λ (r : TokenStore × Result Token). find_token cursor r.0 ≡ some t)
        (leb max_tokens (length (drop_expired i.now tokens))) _ _ (λ _. kept)
        (λ _.
          find_token-append_other cursor (i.cursor, token_of i.now i.observer i.seq)
            (drop_expired i.now tokens) (some t) other kept))

admit-observed :
    (now : ℕ) (retired : Text → Option ChannelErrorCode) (observers : Text → Option Observer)
    (channel_id cursor : Text) (count : ℕ) (tokens : TokenStore) (t : Token) (o : Observer)
    → find_token cursor tokens ≡ some t
    → observers t.channel_id ≡ some o
    → admit now retired observers channel_id cursor count tokens
      ≡ admit_wait now channel_id t count o
unfolding admit
admit-observed now retired observers channel_id cursor count tokens t o found known =
    rw (found, admit) (rw known refl)

-- A cursor that was issued under a new text is held whatever cursors are issued later, and lets a
-- waiter in on its channel until it expires: as long as the observer is the same one with its lease, has
-- not evicted an event behind the cursor, and there is room for one more waiter.
pub issue-admit :
    (now later : ℕ) (cursor : Text) (o o' : Observer) (seq : ℕ) (tokens : TokenStore) (t : Token)
    (is : List Issue) (retired : Text → Option ChannelErrorCode)
    (observers : Text → Option Observer) (count : ℕ)
    → (issue now cursor o seq tokens).1 ≡ ok t
    → find_token cursor tokens ≡ none
    → All (IsLater cursor t) is
    → observers o.channel_id ≡ some o'
    → IsSame o o'
    → later ≤ t.exp
    → later ≤ o'.valid_until
    → has_expired o'.failure ≡ false
    → o'.evicted ≤ seq
    → count < max_waiters_global
    → o'.waiters < max_waiters_per_channel
    → admit later retired observers o.channel_id cursor count
        (issue_all is (issue now cursor o seq tokens).0)
      ≡ ok tt
issue-admit now later cursor o o' seq tokens t is retired observers count e fresh after known same
      in_time leased alive kept few few' =
    let token_eq = issue-eq now cursor o seq tokens t e in
    let held =
      issue_all-find_token is cursor t _ after
        (issue-find_token now cursor o seq tokens t e fresh) in
    let there : observers t.channel_id ≡ some o' =
      ap observers (ap (λ (x : Token). x.channel_id) token_eq) ∙ known in
    admit-observed later retired observers o.channel_id cursor count _ t o' held there
    ∙ ap (λ x. admit_wait later o.channel_id x count o') token_eq
    ∙ token_of-admit_wait now later o o' seq count same
        (subst (λ (x : Token). later ≤ x.exp) token_eq in_time) leased alive kept few few'

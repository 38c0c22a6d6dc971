-- ===== src/Runtime/Observation/Cursors.antt =====
-- src/observation.ts: the cursors that are held, and which of them let a waiter in.
pub mod Held
use agent_runtime_mcp.Base.{
  ℕ, ◌+◌, ◌≤◌, ◌<◌, min, true, false, not, ◌&&◌, ◌||◌, Option, none, some, or_default, none-absurd,
  Bool-cases, inl, inr, List, [], ◌∷◌, ◌++◌, Text, text_eq, text_eq_self, ltb, leb, length, filter,
  if◌then◌else◌, if-elim, ◌≡◌, refl, sym, subst, ap, ◌∙◌, some-inj, All, arith,
}
use agent_runtime_mcp.Runtime.Errors.{
  ChannelErrorCode, cursor_invalid, waiter_limit, resource_exhausted, plain, Result, ok, thrown,
  require, ◌>>◌, ok-inj,
}
use agent_runtime_mcp.Runtime.Observation.{
  Observer, Token, lease_ms, lifetime_ms, max_tokens, max_waiters_global, max_waiters_per_channel,
  has_expired, validate_token,
}

-- The cursors that were issued, under their texts.
abbrev pub TokenStore : Type 0
TokenStore = List (Text × Token)

abbrev pub drop_expired : (now : ℕ) → TokenStore → TokenStore
drop_expired now = filter (λ (p : Text × Token). not (ltb p.1.exp now))

abbrev pub token_of : (now : ℕ) → Observer → (seq : ℕ) → Token
token_of now o seq = record {
  observer = o.id;
  channel_id = o.channel_id;
  instance_id = o.instance_id;
  seq = seq;
  exp = min (now + lease_ms) (o.created + lifetime_ms);
}

-- `issue`: the cursor is a random text.
unfoldable pub issue :
    (now : ℕ) (cursor : Text) → Observer → (seq : ℕ) → TokenStore → TokenStore × Result Token
issue now cursor o seq tokens =
    let kept = drop_expired now tokens in
    if leb max_tokens (length kept)
    then (kept, thrown (plain resource_exhausted))
    else (kept ++ (cursor, token_of now o seq) ∷ [], ok (token_of now o seq))

-- The checks of `wait` on a cursor that was found and its observer, up to the count of waiters.
pub admit_wait :
    (now : ℕ) (channel_id : Text) → Token → (waiter_count : ℕ) → Observer → Result (Unit {0})
admit_wait now channel_id t waiter_count o = do
  require (text_eq t.observer o.id && text_eq t.channel_id channel_id) (plain cursor_invalid)
  validate_token now o t
  require (not (leb max_waiters_global waiter_count || leb max_waiters_per_channel o.waiters))
      (plain waiter_limit)

-- `this.tokens.get(cursor)`
abbrev pub find_token : (cursor : Text) → TokenStore → Option Token
find_token cursor [] = none
find_token cursor ((c, t) ∷ tokens) = if text_eq c cursor then some t else find_token cursor tokens

-- `wait`, from the search for its cursor to the count of waiters. `retired` are the codes of cursors
-- whose observer is gone.
pub admit :
    (now : ℕ) (retired : Text → Option ChannelErrorCode) (observers : Text → Option Observer)
    (channel_id cursor : Text) (waiter_count : ℕ)
    → TokenStore
    → Result (Unit {0})
admit now retired observers channel_id cursor waiter_count tokens =
    elim (find_token cursor tokens) [
      | none ↦ thrown (plain (or_default (retired cursor) cursor_invalid))
      | some t ↦ elim (observers t.channel_id) [
        | none ↦ thrown (plain cursor_invalid)
        | some o ↦ admit_wait now channel_id t waiter_count o
      ]
    ]

-- A later call of `issue`, by any observer.
pub record Issue : Type 0 where
  pub now : ℕ
  pub cursor : Text
  pub observer : Observer
  pub seq : ℕ

pub issue_all : List Issue → TokenStore → TokenStore
issue_all [] tokens = tokens
issue_all (i ∷ is) tokens = issue_all is (issue i.now i.cursor i.observer i.seq tokens).0

-- It comes before `t` expires, with another text.
abbrev pub IsLater : (cursor : Text) → Token → Issue → Type 0
IsLater cursor t i = (i.now ≤ t.exp) × (text_eq i.cursor cursor ≡ false)

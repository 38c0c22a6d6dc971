-- ===== src/Console/Projection/Settled.antt =====
-- console/src/projection.ts: the two kinds of turn, `settled`, and `earlier`.
use agent_runtime_mcp.Base.{
  ℤ, pos, int_eq, int_eq_iff, true, false, not, ◌&&◌, ◌≡◌, ◌≢◌, ◌↔◌, refl, ◌⊎◌, none, some, List,
  [], ◌∷◌, ◌++◌, map, reverse, arith, every, ltb, length, All, All-append, inl, inr,
}
use mathlib.Core.List.{reverse-cons}
use agent_runtime_mcp.Console.History.Entry.{
  Entry, HistoryEntry, Body, EarlierOutput, OutputBlock, UserTurn, opened, earlier_output,
  output_block, user_turn, control, drop_marker,
}
use agent_runtime_mcp.Console.Projection.{
  Turn, earlier_turn, opened_turn, on_current, set_earlier, add_block, add_control, project_body,
  project_from, settle, project_conversation, is_open,
}
use agent_runtime_mcp.Console.Projection.Segments.{IsNumbered, project_from-append}

abbrev IsSynthetic : Turn → Type 0
IsSynthetic t = (t.id ≡ pos 0) × (t.user ≡ none) × (t.settled ≡ true)

abbrev IsOpened : Turn → Type 0
IsOpened t =
    (t.id ≢ pos 0)
    × ((u : UserTurn) × (t.user ≡ some (record { id = t.id; body = u })))
    × (t.earlier ≡ none)

abbrev IsTurn : Turn → Type 0
IsTurn t = IsSynthetic t ⊎ IsOpened t

-- A change that leaves the fields of `IsTurn` as they are.
on_current-IsTurn :
    (change : Turn → Turn) (ts : List Turn)
    → ((t : Turn) → IsTurn t → IsTurn (change t))
    → All IsTurn ts
    → All IsTurn (on_current change ts)
unfolding earlier_turn
on_current-IsTurn change [] h a = (h earlier_turn (inl (refl, refl, refl)), tt)
on_current-IsTurn change (t ∷ ts) h (p, a) = (h t p, a)

set_earlier-IsTurn : (e : Entry EarlierOutput) (t : Turn) → IsTurn t → IsTurn (set_earlier e t)
set_earlier-IsTurn e t (inl (zero_id, no_user, settled)) =
    rw ((int_eq_iff t.id (pos 0)).1 zero_id) (inl (zero_id, no_user, settled))
set_earlier-IsTurn e t (inr (other, sent, later)) =
    let differs : int_eq t.id (pos 0) ≡ false = ground (arith, int_eq_iff t.id (pos 0)) in
    rw differs (inr (other, sent, later))

project_body-IsTurn :
    (id : ℤ) (body : Body) (ts : List Turn)
    → id ≢ pos 0
    → All IsTurn ts
    → All IsTurn (project_body id body ts)
unfolding project_body opened_turn
project_body-IsTurn id (user_turn u) ts h a = (inr (h, (u, refl), refl), a)
project_body-IsTurn id (earlier_output e) ts h a =
    let entry : Entry EarlierOutput = record { id = id; body = e } in
    on_current-IsTurn (set_earlier entry) ts (set_earlier-IsTurn entry) a
project_body-IsTurn id (output_block b) ts h a =
    on_current-IsTurn (add_block (record { id = id; body = b })) ts (λ t p. p) a
project_body-IsTurn id (control c) ts h a =
    on_current-IsTurn (add_control (record { id = id; body = c })) ts (λ t p. p) a
project_body-IsTurn id (drop_marker d) ts h a = a

project_from-IsTurn :
    (ts : List Turn) (es : List HistoryEntry)
    → IsNumbered es
    → All IsTurn ts
    → All IsTurn (project_from ts es)
unfolding project_from
project_from-IsTurn ts [] n a = a
project_from-IsTurn ts (e ∷ es) (m, n) a =
    project_from-IsTurn (project_body e.id e.body ts) es n (project_body-IsTurn e.id e.body ts m a)

All-reverse : (P : Turn → Type 0) (ts : List Turn) → All P ts → All P (reverse ts)
All-reverse P [] a = tt
All-reverse P (t ∷ ts) (p, a) =
    rw (reverse-cons t ts) (All-append P (reverse ts) (t ∷ []) (All-reverse P ts a) (p, tt))

abbrev pub NoneOpen : List (Entry OutputBlock) → Type 0
NoneOpen = All (λ b. b.body.state ≢ opened)

every-NoneOpen :
    (bs : List (Entry OutputBlock))
    → (every (λ b. not (is_open b.body.state)) bs ≡ true) ↔ NoneOpen bs
every-NoneOpen [] = ground arith
every-NoneOpen (b ∷ bs) = ground (arith, every-NoneOpen bs)

-- What a reader of the turns may rely on.
abbrev pub IsSettledRight : Turn → Type 0
IsSettledRight t =
    ((t.id ≡ pos 0) × (t.user ≡ none) × (t.settled ≡ true))
    ⊎ (((u : UserTurn) × (t.user ≡ some (record { id = t.id; body = u })))
        × (t.earlier ≡ none)
        × ((t.settled ≡ true) ↔ ((t.blocks ≢ []) × NoneOpen t.blocks)))

settle-IsSettledRight : (t : Turn) → IsTurn t → IsSettledRight (settle t)
unfolding settle
settle-IsSettledRight t (inl (zero_id, no_user, settled)) =
    rw ((int_eq_iff t.id (pos 0)).1 zero_id) (inl (zero_id, no_user, settled))
settle-IsSettledRight t (inr (other, sent, later)) =
    let differs : int_eq t.id (pos 0) ≡ false = ground (arith, int_eq_iff t.id (pos 0)) in
    rw differs (inr (sent, later, settled_iff t.blocks))
  where
    settled_iff :
        (bs : List (Entry OutputBlock))
        → ((ltb 0 (length bs) && every (λ b. not (is_open b.body.state)) bs) ≡ true)
          ↔ ((bs ≢ []) × NoneOpen bs)
    settled_iff [] = (λ e. cc, λ h. absurd (h.0 refl))
    settled_iff (b ∷ bs) = (
      λ e. (λ n. cc, (every-NoneOpen (b ∷ bs)).0 (ground arith)),
      λ h. ground (arith, (every-NoneOpen (b ∷ bs)).1 h.1),
    )

All-map-settle : (ts : List Turn) → All IsTurn ts → All IsSettledRight (map settle ts)
All-map-settle [] a = tt
All-map-settle (t ∷ ts) (p, a) = (settle-IsSettledRight t p, All-map-settle ts a)

-- Of a history whose entries are numbered from 1, each turn is either the synthetic one, with id 0,
-- no user entry and always settled, or it carries the user entry of its own id and no earlier
-- output, and is settled exactly when it has a block and none of its blocks is open.
pub project_conversation-IsSettledRight :
    (es : List HistoryEntry) → IsNumbered es → All IsSettledRight (project_conversation es)
unfolding project_conversation
project_conversation-IsSettledRight es n =
    All-map-settle _ (All-reverse IsTurn _ (project_from-IsTurn [] es n tt))

-- No entry is a user turn.
abbrev pub HasNoUser : List HistoryEntry → Type 0
HasNoUser = All (λ e. (u : UserTurn) → e.body ≢ user_turn u)

abbrev IsLead : List Turn → Type 0
IsLead ts = (ts ≡ []) ⊎ ((t : Turn) × (ts ≡ t ∷ []) × (t.id ≡ pos 0))

project_body-IsLead :
    (id : ℤ) (body : Body) (ts : List Turn)
    → ((u : UserTurn) → body ≢ user_turn u)
    → IsLead ts
    → IsLead (project_body id body ts)
unfolding project_body earlier_turn
project_body-IsLead id (user_turn u) ts h l = absurd (h u refl)
project_body-IsLead id (earlier_output e) ts h (inl none_yet) = rw none_yet (inr (_, refl, refl))
project_body-IsLead id (earlier_output e) ts h (inr (t, one, zero_id)) =
    rw (one, (int_eq_iff t.id (pos 0)).1 zero_id) (inr (_, refl, zero_id))
project_body-IsLead id (output_block b) ts h (inl none_yet) = rw none_yet (inr (_, refl, refl))
project_body-IsLead id (output_block b) ts h (inr (t, one, zero_id)) =
    rw one (inr (_, refl, zero_id))
project_body-IsLead id (control c) ts h (inl none_yet) = rw none_yet (inr (_, refl, refl))
project_body-IsLead id (control c) ts h (inr (t, one, zero_id)) = rw one (inr (_, refl, zero_id))
project_body-IsLead id (drop_marker d) ts h l = l

project_from-IsLead :
    (ts : List Turn) (es : List HistoryEntry)
    → HasNoUser es
    → IsLead ts
    → IsLead (project_from ts es)
unfolding project_from
project_from-IsLead ts [] h l = l
project_from-IsLead ts (e ∷ es) (q, h) l =
    project_from-IsLead (project_body e.id e.body ts) es h (project_body-IsLead e.id e.body ts q l)

abbrev pub earlier_entry : ℤ → EarlierOutput → HistoryEntry
earlier_entry id e = record { id = id; body = earlier_output e }

latest-set :
    (id : ℤ) (e : EarlierOutput) (t : Turn)
    → t.id ≡ pos 0
    → map settle (reverse (project_from (t ∷ []) (earlier_entry id e ∷ [])))
      ≡ record t { earlier = some (record { id = id; body = e }) } ∷ []
unfolding project_from project_body settle
latest-set id e t zero_id = let same = (int_eq_iff t.id (pos 0)).1 zero_id in rw (same, same)

latest-unset :
    (id : ℤ) (e : EarlierOutput)
    → map settle (reverse (project_from [] (earlier_entry id e ∷ [])))
      ≡ record earlier_turn { earlier = some (record { id = id; body = e }) } ∷ []
unfolding project_from project_body settle earlier_turn
latest-unset id e = refl

-- Before any user turn, an earlier output takes the place of the one that the synthetic turn held.
pub earlier_output-overwrites :
    (es : List HistoryEntry) (id : ℤ) (e : EarlierOutput)
    → HasNoUser es
    → (t : Turn) × (project_conversation (es ++ earlier_entry id e ∷ []) ≡ t ∷ [])
      × (t.earlier ≡ some (record { id = id; body = e }))
unfolding project_conversation
earlier_output-overwrites es id e h =
    rw (project_from-append [] es (earlier_entry id e ∷ []))
      (finish (project_from-IsLead [] es h (inl refl)))
  where
    finish :
        IsLead (project_from [] es)
        → (t : Turn) × (map settle
              (reverse (project_from (project_from [] es) (earlier_entry id e ∷ [])))
            ≡ t ∷ [])
          × (t.earlier ≡ some (record { id = id; body = e }))
    finish (inl none_yet) = rw none_yet (_, latest-unset id e, refl)
    finish (inr (t, one, zero_id)) = rw one (_, latest-set id e t zero_id, refl)

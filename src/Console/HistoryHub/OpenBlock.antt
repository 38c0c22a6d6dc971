-- ===== src/Console/HistoryHub/OpenBlock.antt =====
-- console/src/observer.ts: the open block of a channel, and what closing, pausing and extending it do.
use agent_runtime_mcp.Base.{
  ℤ, true, false, Option, none, some, List, [], ◌∷◌, Text, ◌≡◌, ◌⊎◌, refl, sym, ◌∙◌, ap, subst,
  int_eq_iff, find, Bool-cases, Option-cases, inl, inr, if-elim, if◌then◌else◌, All, All-map,
  some-inj, none-absurd, true-absurd,
}
use agent_runtime_mcp.Console.History.Entry.{
  BlockState, OutputBlock, Body, HistoryEntry, earlier_output, output_block, user_turn, control,
  drop_marker,
}
use agent_runtime_mcp.Console.History.Ring.{Ring, push, get, update}
use agent_runtime_mcp.Console.History.Ring.Ids.{has_id, push-body}
use agent_runtime_mcp.Console.HistoryHub.Blocks.{
  is_closed, in_block, close_block, as_block, current_block, open_block,
}
use agent_runtime_mcp.Console.HistoryHub.{ChannelState}
use agent_runtime_mcp.Console.HistoryHub.OnlyCurrent.{
  is_open_body, IsShut, OnlyCurrent, IsShut-OnlyCurrent, IsShut-all, replace_first-IsShut,
  replace_first-OnlyCurrent, update-All, push-All, SoundAt,
}

-- The open block, from what it depends on.
abbrev pub block_at : Option HistoryEntry → Option ℤ
block_at none = none
block_at (some entry) = elim (as_block entry) [
  | none ↦ none
  | some (id, b) ↦ if is_closed b.state then none else some id
]

abbrev pub block_in : Option ℤ → Ring → Option ℤ
block_in none r = none
block_in (some id) r = block_at (get id r)

pub open_block_eq : (cs : ChannelState) → open_block cs ≡ block_in cs.current_block_id cs.ring
unfolding open_block current_block
open_block_eq cs = by_id cs.current_block_id
  where
    by_entry :
        (o : Option HistoryEntry)
        → ◌≡◌ {A = Option ℤ}
            (elim (elim o as (λ _. Option (ℤ × OutputBlock)) [
              | none ↦ none
              | some entry ↦ as_block entry
            ])
              as (λ _. Option ℤ) [
                | none ↦ none
                | some (id, b) ↦ if is_closed b.state then none else some id
              ])
            (block_at o)
    by_entry none = refl
    by_entry (some entry) = refl

    by_id :
        (i : Option ℤ)
        → ◌≡◌ {A = Option ℤ}
            (elim (elim i as (λ _. Option (ℤ × OutputBlock)) [
              | none ↦ none
              | some id ↦ elim (get id cs.ring) [ none ↦ none | some entry ↦ as_block entry ]
            ])
              as (λ _. Option ℤ) [
                | none ↦ none
                | some (id, b) ↦ if is_closed b.state then none else some id
              ])
            (block_in i cs.ring)
    by_id none = refl
    by_id (some id) = by_entry (get id cs.ring)

block_at-id :
    (i : ℤ) (body : Body) (id : ℤ)
    → block_at (some (record { id = i; body = body })) ≡ some id
    → i ≡ id
block_at-id i (output_block b) id h =
    if-elim (λ o. o ≡ some id → i ≡ id) (is_closed b.state) none (some i) (λ _ e. none-absurd e)
      (λ _ e. some-inj e) h
block_at-id i (earlier_output x) id h = none-absurd h
block_at-id i (user_turn x) id h = none-absurd h
block_at-id i (control x) id h = none-absurd h
block_at-id i (drop_marker x) id h = none-absurd h

block_at-IsShut :
    (i : ℤ) (body : Body)
    → block_at (some (record { id = i; body = body })) ≡ none
    → is_open_body body ≡ false
block_at-IsShut i (output_block b) h = elim (Bool-cases (is_closed b.state)) [
  | inl shut ↦ rw shut refl
  | inr open' ↦ none-absurd (sym (rw open' at h))
]
block_at-IsShut i (earlier_output x) h = refl
block_at-IsShut i (user_turn x) h = refl
block_at-IsShut i (control x) h = refl
block_at-IsShut i (drop_marker x) h = refl

find-has_id :
    (id : ℤ) (es : List HistoryEntry) (e : HistoryEntry) → find (has_id id) es ≡ some e → e.id ≡ id
find-has_id id [] e h = none-absurd h
find-has_id id (x ∷ es) e h = elim (Bool-cases (has_id id x)) [
  | inl this ↦
      subst (λ (y : HistoryEntry). y.id ≡ id) (some-inj (rw (this, find) at h))
        ((int_eq_iff x.id id).0 this)
  | inr other ↦ find-has_id id es e (rw (other, find) at h)
]

block_in-current :
    (current : Option ℤ) (r : Ring) (id : ℤ) → block_in current r ≡ some id → current ≡ some id
unfolding get
block_in-current none r id h = none-absurd h
block_in-current (some i) r id h = elim (Option-cases (get i r)) [
  | inl missing ↦ none-absurd (sym (ap block_at missing) ∙ h)
  | inr (e, found) ↦ ap some (
      sym (find-has_id i r.entries e found)
      ∙ block_at-id e.id e.body id (sym (ap block_at found) ∙ h))
]

-- The open block is the current one.
pub open_block-current :
    (cs : ChannelState) (id : ℤ) → open_block cs ≡ some id → cs.current_block_id ≡ some id
open_block-current cs id h =
    block_in-current cs.current_block_id cs.ring id (sym (open_block_eq cs) ∙ h)

left-IsShut : (e : HistoryEntry) → IsShut e ⊎ (none ≡ some e.id) → IsShut e
left-IsShut e (inl shut) = shut
left-IsShut e (inr this) = none-absurd this

-- Where no block is found to be open, all are closed.
block_in-IsShut :
    (current : Option ℤ) (r : Ring)
    → SoundAt current r
    → block_in current r ≡ none
    → All IsShut r.entries
unfolding get
block_in-IsShut none r (good, all) h = All-map r.entries left-IsShut all
block_in-IsShut (some id) r (good, all) h =
    IsShut-all id 0 r.entries r.next_id good.numbered
      (λ e found. block_at-IsShut e.id e.body (sym (ap block_at found) ∙ h)) all

pub open_block-IsShut :
    (cs : ChannelState)
    → SoundAt cs.current_block_id cs.ring
    → open_block cs ≡ none
    → All IsShut cs.ring.entries
open_block-IsShut cs sound h =
    block_in-IsShut cs.current_block_id cs.ring sound (sym (open_block_eq cs) ∙ h)

pub update-OnlyCurrent :
    (current : Option ℤ) (id : ℤ) (mutate : HistoryEntry → HistoryEntry) (r : Ring)
    → current ≡ some id
    → ((e : HistoryEntry) → (mutate e).id ≡ e.id)
    → OnlyCurrent current r.entries
    → OnlyCurrent current (update id mutate r).0.entries
update-OnlyCurrent current id mutate r e keeps all =
    subst (λ c. OnlyCurrent c (update id mutate r).0.entries) (sym e)
      (update-All (λ x. IsShut x ⊎ (some id ≡ some x.id)) id mutate r
        (λ _ _. replace_first-OnlyCurrent id mutate r.entries keeps here) (λ _. here))
  where
    here : OnlyCurrent (some id) r.entries
    here = subst (λ c. OnlyCurrent c r.entries) e all

pub update-IsShut :
    (current : Option ℤ) (id : ℤ) (mutate : HistoryEntry → HistoryEntry) (r : Ring)
    → current ≡ some id
    → ((e : HistoryEntry) → IsShut (mutate e))
    → SoundAt current r
    → All IsShut (update id mutate r).0.entries
unfolding get
update-IsShut current id mutate r e shuts (good, all) =
    update-All IsShut id mutate r
      (λ _ _. replace_first-IsShut id mutate 0 r.entries r.next_id shuts good.numbered here)
      (λ missing.
        IsShut-all id 0 r.entries r.next_id good.numbered
          (λ x found. none-absurd (sym missing ∙ found)) here)
  where
    here : OnlyCurrent (some id) r.entries
    here = subst (λ c. OnlyCurrent c r.entries) e all

pub close_block-IsShut :
    (s : BlockState) (now : Text) (i : ℤ) (body : Body)
    → is_closed s ≡ true
    → IsShut (in_block (close_block s now) (record { id = i; body = body }))
close_block-IsShut s now i (output_block b) c = rw c refl
close_block-IsShut s now i (earlier_output x) c = refl
close_block-IsShut s now i (user_turn x) c = refl
close_block-IsShut s now i (control x) c = refl
close_block-IsShut s now i (drop_marker x) c = refl

-- Closing the block that is open closes all, pausing it keeps it the only one that is not closed.
pub close-OnlyCurrent :
    (s : BlockState) (now : Text) (current : Option ℤ) (id : ℤ) (r : Ring)
    → current ≡ some id
    → ((e : HistoryEntry) → (in_block (close_block s now) e).id ≡ e.id)
    → SoundAt current r
    → OnlyCurrent
        (if is_closed s then none else current)
        (update id (in_block (close_block s now)) r).0.entries
close-OnlyCurrent s now current id r e keeps (good, all) =
    if-elim (λ c. OnlyCurrent c (update id (in_block (close_block s now)) r).0.entries)
      (is_closed s) none current
      (λ closed. IsShut-OnlyCurrent none _ (
        update-IsShut current id _ r e (λ x. close_block-IsShut s now x.id x.body closed)
          (good, all)))
      (λ _. update-OnlyCurrent current id _ r e keeps all)

-- A new block that becomes the current one is the only one that is open.
pub open-OnlyCurrent :
    (body : Body) (r : Ring)
    → All IsShut r.entries
    → OnlyCurrent
        (some (push (record { id = none; body = body }) r).1.id)
        (push (record { id = none; body = body }) r).0.entries
open-OnlyCurrent body r all =
    push-All (λ e. IsShut e ⊎ (some (push (record { id = none; body = body }) r).1.id ≡ some e.id))
      body r (All-map r.entries (λ e shut. inl shut) all) (inr refl)

pub shut-OnlyCurrent :
    (current : Option ℤ) (body : Body) (r : Ring)
    → is_open_body body ≡ false
    → OnlyCurrent current r.entries
    → OnlyCurrent current (push (record { id = none; body = body }) r).0.entries
shut-OnlyCurrent current body r shut all =
    push-All _ body r all (inl (subst (λ b. is_open_body b ≡ false) (sym (push-body body r)) shut))

find-All :
    (P : HistoryEntry → Type 0) (id : ℤ) (es : List HistoryEntry) (e : HistoryEntry)
    → All P es
    → find (has_id id) es ≡ some e
    → P e
find-All P id [] e all h = none-absurd h
find-All P id (x ∷ es) e all h = elim (Bool-cases (has_id id x)) [
  | inl this ↦ subst P (some-inj (rw (this, find) at h)) all.0
  | inr other ↦ find-All P id es e all.1 (rw (other, find) at h)
]

IsShut-block_at :
    (i : ℤ) (body : Body)
    → is_open_body body ≡ false
    → block_at (some (record { id = i; body = body })) ≡ none
IsShut-block_at i (output_block b) h = elim (Bool-cases (is_closed b.state)) [
  | inl shut ↦ rw shut refl
  | inr open' ↦ true-absurd (rw open' at h)
]
IsShut-block_at i (earlier_output x) h = refl
IsShut-block_at i (user_turn x) h = refl
IsShut-block_at i (control x) h = refl
IsShut-block_at i (drop_marker x) h = refl

IsShut-block_in : (current : Option ℤ) (r : Ring) → All IsShut r.entries → block_in current r ≡ none
unfolding get
IsShut-block_in none r all = refl
IsShut-block_in (some id) r all = elim (Option-cases (get id r)) [
  | inl missing ↦ ap block_at missing
  | inr (e, found) ↦
      ap block_at found ∙ IsShut-block_at e.id e.body (find-All IsShut id r.entries e all found)
]

-- Where all blocks are closed, none is extended by the next output.
pub IsShut-open_block : (cs : ChannelState) → All IsShut cs.ring.entries → open_block cs ≡ none
IsShut-open_block cs all = open_block_eq cs ∙ IsShut-block_in cs.current_block_id cs.ring all

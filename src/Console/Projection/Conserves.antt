-- ===== src/Console/Projection/Conserves.antt =====
-- console/src/projection.ts: no output block, control or user turn is lost, repeated or moved.
use agent_runtime_mcp.Base.{
  ℤ, ◌≡◌, refl, sym, ap, ◌∙◌, none, some, List, [], ◌∷◌, ◌++◌, map, reverse, arith,
}
use mathlib.Core.List.{append-nil, append_assoc, reverse-cons}
use agent_runtime_mcp.Console.History.Entry.{
  Entry, HistoryEntry, Body, EarlierOutput, OutputBlock, UserTurn, Control, DropMarker,
  earlier_output, output_block, user_turn, control, drop_marker,
}
use agent_runtime_mcp.Console.Projection.{
  Turn, earlier_turn, opened_turn, on_current, set_earlier, add_block, add_control, project_body,
  project_from, settle, project_conversation,
}

-- What a function reads from each turn, in order.
abbrev pub collect : {B : Type 0} → (Turn → List B) → List Turn → List B
collect f [] = []
collect f (t ∷ ts) = f t ++ collect f ts

collect-append :
    {B : Type 0} (f : Turn → List B) (xs ys : List Turn)
    → collect f (xs ++ ys) ≡ collect f xs ++ collect f ys
collect-append f [] ys = refl
collect-append f (x ∷ xs) ys = rw (collect-append f xs ys) (sym (append_assoc (f x) _ _))

abbrev pub gather : {B : Type 0} → (ℤ → Body → List B) → List HistoryEntry → List B
gather g [] = []
gather g (e ∷ es) = g e.id e.body ++ gather g es

-- A reading `f` of turns that gains `g id body` at each entry.
record Reads {B : Type 0} (f : Turn → List B) (g : ℤ → Body → List B) : Type 0 where
  settled : (t : Turn) → f (settle t) ≡ f t
  opens :
      (id : ℤ) (u : UserTurn) → f (opened_turn (record { id = id; body = u })) ≡ g id (user_turn u)
  synthetic : f earlier_turn ≡ []
  earlier_reads :
      (id : ℤ) (e : EarlierOutput) (t : Turn)
      → f (set_earlier (record { id = id; body = e }) t) ≡ f t ++ g id (earlier_output e)
  block_reads :
      (id : ℤ) (b : OutputBlock) (t : Turn)
      → f (add_block (record { id = id; body = b }) t) ≡ f t ++ g id (output_block b)
  control_reads :
      (id : ℤ) (c : Control) (t : Turn)
      → f (add_control (record { id = id; body = c }) t) ≡ f t ++ g id (control c)
  marker_reads : (id : ℤ) (d : DropMarker) → g id (drop_marker d) ≡ []

module _ {B : Type 0} (f : Turn → List B) (g : ℤ → Body → List B) (r : Reads f g) where
  collect-reverse_cons :
      (t : Turn) (ts : List Turn) → collect f (reverse (t ∷ ts)) ≡ collect f (reverse ts) ++ f t
  collect-reverse_cons t ts =
      ap (collect f) (reverse-cons t ts)
      ∙ collect-append f (reverse ts) (t ∷ [])
      ∙ ap (λ xs. collect f (reverse ts) ++ xs) (append-nil (f t))

  collect-on_current :
      (change : Turn → Turn) (new : List B) (ts : List Turn)
      → ((t : Turn) → f (change t) ≡ f t ++ new)
      → collect f (reverse (on_current change ts)) ≡ collect f (reverse ts) ++ new
  collect-on_current change new [] h =
      append-nil (f (change earlier_turn)) ∙ h earlier_turn ∙ ap (λ xs. xs ++ new) r.synthetic
  collect-on_current change new (t ∷ ts) h =
      collect-reverse_cons (change t) ts
      ∙ ap (λ xs. collect f (reverse ts) ++ xs) (h t)
      ∙ sym (append_assoc (collect f (reverse ts)) (f t) new)
      ∙ ap (λ xs. xs ++ new) (sym (collect-reverse_cons t ts))

  collect-project_body :
      (id : ℤ) (body : Body) (ts : List Turn)
      → collect f (reverse (project_body id body ts)) ≡ collect f (reverse ts) ++ g id body
  unfolding project_body
  collect-project_body id (user_turn u) ts =
      collect-reverse_cons _ ts ∙ ap (λ xs. collect f (reverse ts) ++ xs) (r.opens id u)
  collect-project_body id (earlier_output e) ts = collect-on_current _ _ ts (r.earlier_reads id e)
  collect-project_body id (output_block b) ts = collect-on_current _ _ ts (r.block_reads id b)
  collect-project_body id (control c) ts = collect-on_current _ _ ts (r.control_reads id c)
  collect-project_body id (drop_marker d) ts =
      sym (append-nil (collect f (reverse ts)))
      ∙ ap (λ xs. collect f (reverse ts) ++ xs) (sym (r.marker_reads id d))

  collect-project_from :
      (ts : List Turn) (es : List HistoryEntry)
      → collect f (reverse (project_from ts es)) ≡ collect f (reverse ts) ++ gather g es
  unfolding project_from
  collect-project_from ts [] = sym (append-nil (collect f (reverse ts)))
  collect-project_from ts (e ∷ es) =
      collect-project_from (project_body e.id e.body ts) es
      ∙ ap (λ xs. xs ++ gather g es) (collect-project_body e.id e.body ts)
      ∙ append_assoc (collect f (reverse ts)) (g e.id e.body) (gather g es)

  collect-settle : (ts : List Turn) → collect f (map settle ts) ≡ collect f ts
  collect-settle [] = refl
  collect-settle (t ∷ ts) = rw (r.settled t, collect-settle ts)

  collect-project : (es : List HistoryEntry) → collect f (project_conversation es) ≡ gather g es
  unfolding project_conversation
  collect-project es = collect-settle _ ∙ collect-project_from [] es

abbrev pub users : Turn → List (Entry UserTurn)
users t = elim t.user [ none ↦ [] | some u ↦ u ∷ [] ]

abbrev pub block_of : ℤ → Body → List (Entry OutputBlock)
block_of id (output_block b) = record { id = id; body = b } ∷ []
block_of id (earlier_output e) = []
block_of id (user_turn u) = []
block_of id (control c) = []
block_of id (drop_marker d) = []

abbrev pub control_of : ℤ → Body → List (Entry Control)
control_of id (control c) = record { id = id; body = c } ∷ []
control_of id (earlier_output e) = []
control_of id (user_turn u) = []
control_of id (output_block b) = []
control_of id (drop_marker d) = []

abbrev pub user_of : ℤ → Body → List (Entry UserTurn)
user_of id (user_turn u) = record { id = id; body = u } ∷ []
user_of id (earlier_output e) = []
user_of id (output_block b) = []
user_of id (control c) = []
user_of id (drop_marker d) = []

blocks-Reads : Reads (λ t. t.blocks) block_of
unfolding settle opened_turn earlier_turn
blocks-Reads = record {
  settled = λ t. ground arith;
  opens = λ id u. refl;
  synthetic = refl;
  earlier_reads = λ id e t. ground (arith, append-nil t.blocks);
  block_reads = λ id b t. refl;
  control_reads = λ id c t. sym (append-nil t.blocks);
  marker_reads = λ id d. refl;
}

controls-Reads : Reads (λ t. t.controls) control_of
unfolding settle opened_turn earlier_turn
controls-Reads = record {
  settled = λ t. ground arith;
  opens = λ id u. refl;
  synthetic = refl;
  earlier_reads = λ id e t. ground (arith, append-nil t.controls);
  block_reads = λ id b t. sym (append-nil t.controls);
  control_reads = λ id c t. refl;
  marker_reads = λ id d. refl;
}

users-Reads : Reads users user_of
unfolding settle opened_turn earlier_turn
users-Reads = record {
  settled = λ t. ground arith;
  opens = λ id u. refl;
  synthetic = refl;
  earlier_reads = λ id e t. ground (arith, append-nil (users t));
  block_reads = λ id b t. sym (append-nil (users t));
  control_reads = λ id c t. sym (append-nil (users t));
  marker_reads = λ id d. refl;
}

-- Reading the turns in order gives back all output blocks, all controls and all user turns of the
-- history, each in the order in which it was recorded.
pub project_conversation-conserves :
    (es : List HistoryEntry)
    → (collect (λ t. t.blocks) (project_conversation es) ≡ gather block_of es)
      × (collect (λ t. t.controls) (project_conversation es) ≡ gather control_of es)
      × (collect users (project_conversation es) ≡ gather user_of es)
project_conversation-conserves es = (
  collect-project _ _ blocks-Reads es,
  collect-project _ _ controls-Reads es,
  collect-project _ _ users-Reads es,
)

-- ===== src/Console/Projection/Segments.antt =====
-- console/src/projection.ts: each turn depends on its own segment of the history.
use agent_runtime_mcp.Base.{
  ℤ, pos, int_eq, int_eq_iff, Bool, true, false, not, ◌≡◌, ◌≢◌, refl, ap, ◌∙◌, List, [], ◌∷◌, ◌++◌,
  map, reverse, filter, arith,
}
use mathlib.Core.List.{map-append, reverse-append}
use agent_runtime_mcp.Console.History.Entry.{
  HistoryEntry, Body, UserTurn, earlier_output, output_block, user_turn, control, drop_marker,
}
use agent_runtime_mcp.Console.Projection.{
  Turn, opened_turn, project_body, project_from, settle, project_conversation,
}

-- Once a turn is open, the loop works on the turns above the old ones only.
project_body-append :
    (id : ℤ) (body : Body) (t : Turn) (turns old : List Turn)
    → (t' : Turn) × (turns' : List Turn) × (project_body id body (t ∷ turns) ≡ t' ∷ turns')
      × (project_body id body (t ∷ (turns ++ old)) ≡ t' ∷ (turns' ++ old))
unfolding project_body
project_body-append id (user_turn u) t turns old = (_, _, refl, refl)
project_body-append id (earlier_output e) t turns old = (_, _, refl, refl)
project_body-append id (output_block b) t turns old = (_, _, refl, refl)
project_body-append id (control c) t turns old = (_, _, refl, refl)
project_body-append id (drop_marker d) t turns old = (_, _, refl, refl)

project_from-append_old :
    (t : Turn) (turns old : List Turn) (entries : List HistoryEntry)
    → project_from (t ∷ (turns ++ old)) entries ≡ project_from (t ∷ turns) entries ++ old
unfolding project_from
project_from-append_old t turns old [] = refl
project_from-append_old t turns old (entry ∷ entries) =
    let (t', turns', short, long) = project_body-append entry.id entry.body t turns old in
    rw (short, long) (project_from-append_old t' turns' old entries)

pub project_from-append :
    (turns : List Turn) (xs ys : List HistoryEntry)
    → project_from turns (xs ++ ys) ≡ project_from (project_from turns xs) ys
unfolding project_from
project_from-append turns [] ys = refl
project_from-append turns (x ∷ xs) ys = project_from-append (project_body x.id x.body turns) xs ys

abbrev pub user_entry : ℤ → UserTurn → HistoryEntry
user_entry id u = record { id = id; body = user_turn u }

-- A user turn cuts the history: the turns of the whole are those of what came before it, followed
-- by those of the rest on its own. What arrives later never changes a turn that is over.
pub project_conversation-append :
    (before : List HistoryEntry) (id : ℤ) (u : UserTurn) (rest : List HistoryEntry)
    → project_conversation (before ++ user_entry id u ∷ rest)
      ≡ project_conversation before ++ project_conversation (user_entry id u ∷ rest)
unfolding project_conversation
project_conversation-append before id u rest =
    ap (λ ts. map settle (reverse ts)) cut
    ∙ ap (map settle)
        (reverse-append (project_from [] (user_entry id u ∷ rest)) (project_from [] before))
    ∙ map-append settle _ _
  where
    cut :
        project_from [] (before ++ user_entry id u ∷ rest)
        ≡ project_from [] (user_entry id u ∷ rest) ++ project_from [] before
    cut =
        project_from-append [] before (user_entry id u ∷ rest)
        ∙ unfold project_from project_body in
          project_from-append_old (opened_turn (record { id = id; body = u })) []
            (project_from [] before) rest

abbrev pub is_earlier : Body → Bool
is_earlier (earlier_output e) = true
is_earlier (output_block b) = false
is_earlier (user_turn u) = false
is_earlier (control c) = false
is_earlier (drop_marker d) = false

-- No entry is numbered 0, as in a ring, which starts at 1.
abbrev pub IsNumbered : List HistoryEntry → Type 0
IsNumbered [] = Unit
IsNumbered (entry ∷ entries) = (entry.id ≢ pos 0) × IsNumbered entries

abbrev pub not_earlier : HistoryEntry → Bool
not_earlier e = not (is_earlier e.body)

module _ (entries : List HistoryEntry)
    (ih : (t : Turn) (turns : List Turn)
      → t.id ≢ pos 0
      → project_from (t ∷ turns) (filter not_earlier entries)
        ≡ project_from (t ∷ turns) entries) where
  project_from-skip_body :
      (id : ℤ) (body : Body) (t : Turn) (turns : List Turn)
      → t.id ≢ pos 0
      → id ≢ pos 0
      → project_from (t ∷ turns) (filter not_earlier (record { id = id; body = body } ∷ entries))
        ≡ project_from (t ∷ turns) (record { id = id; body = body } ∷ entries)
  unfolding project_from project_body opened_turn
  project_from-skip_body id (user_turn u) t turns h m = ih _ _ m
  project_from-skip_body id (earlier_output e) t turns h m =
      let other : int_eq t.id (pos 0) ≡ false = ground (arith, int_eq_iff t.id (pos 0)) in
      rw other (ih t turns h)
  project_from-skip_body id (output_block b) t turns h m = ih _ _ h
  project_from-skip_body id (control c) t turns h m = ih _ _ h
  project_from-skip_body id (drop_marker d) t turns h m = ih t turns h

project_from-skip :
    (t : Turn) (turns : List Turn) (entries : List HistoryEntry)
    → t.id ≢ pos 0
    → IsNumbered entries
    → project_from (t ∷ turns) (filter not_earlier entries) ≡ project_from (t ∷ turns) entries
unfolding project_from
project_from-skip t turns [] h n = refl
project_from-skip t turns (entry ∷ entries) h (m, n) =
    project_from-skip_body entries (λ t' turns' h'. project_from-skip t' turns' entries h' n)
      entry.id entry.body t turns h m

-- An `earlier_output` behind the first user turn leaves no trace in the turns.
pub earlier_output-ignored :
    (id : ℤ) (u : UserTurn) (rest : List HistoryEntry)
    → id ≢ pos 0
    → IsNumbered rest
    → project_conversation (user_entry id u ∷ filter not_earlier rest)
      ≡ project_conversation (user_entry id u ∷ rest)
unfolding project_conversation
earlier_output-ignored id u rest h n = ap (λ ts. map settle (reverse ts)) same
  where
    same :
        project_from [] (user_entry id u ∷ filter not_earlier rest)
        ≡ project_from [] (user_entry id u ∷ rest)
    same = unfold project_from project_body opened_turn in project_from-skip _ [] rest h n

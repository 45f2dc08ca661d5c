-- ===== src/Chats/Shown.antt =====
-- `WorkspaceChat` of apps/web/src/components/workspace-chat.tsx: the rows of a conversation.
pub mod Once
use lgtm.Prelude.{
  ℕ, suc, ◌+◌, Bool, true, false, not, ◌&&◌, ◌||◌, Option, none, some, List, [], ◌∷◌, ◌++◌, map,
  Text, text, is_empty, join, any, ◌==◌, if◌then◌else◌,
}
use lgtm.Types.{ChatTurn, ChatStep}
use lgtm.Tasks.Status.{short_span}
use lgtm.Chats.{is_person}
use lgtm.Chats.References.{Referenced, references_in}

pub data Row : Type 0 where
  question : Text → Row
  -- what was done on the way, the text, whether it tells of a failure, what it refers to, and
  -- whether the way out of the chat stands under it
  answer : Option (Text × List Text) → Text → Bool → Option Referenced → Bool → Row
  thinking : Row

-- `{step.tool}{step.detail ? ...}`
abbrev step_line : ChatStep → Text
step_line s = s.tool ++ (if is_empty s.detail then [] else text " " ++ s.detail)

abbrev has_steps : List ChatStep → Bool
has_steps [] = false
has_steps (_ ∷ _) = true

-- what `Worked` shows, if it is there
unfoldable pub worked_of : ChatTurn → Option (Text × List Text)
worked_of turn =
    if turn.failed || (turn.worked_ms == 0 && not (has_steps turn.steps))
    then none
    else some (text "Worked for " ++ short_span turn.worked_ms, map step_line turn.steps)

abbrev spaced : List Text → Text → Text
spaced refs body = join (text " ") (refs ++ body ∷ [])

-- the place of the last turn of the agent, with the turns counted from `i`
unfoldable pub last_answer : ℕ → List ChatTurn → Option ℕ
last_answer i [] = none
last_answer i (turn ∷ turns) =
    let own : Option ℕ = if is_person turn.role then none else some i in
    elim (last_answer (suc i) turns) [ none ↦ own | some j ↦ some j ]

abbrev pub is_at : Option ℕ → ℕ → Bool
is_at none i = false
is_at (some j) i = i == j

unfoldable pub row_of : Referenced → Bool → Option ℕ → ℕ → ChatTurn → Row
unfolding worked_of
row_of all pending last i turn =
    if is_person turn.role
    then question turn.text
    else answer (worked_of turn) turn.text turn.failed
        (if turn.failed then none else some (references_in (spaced turn.refs turn.text) all))
        (is_at last i && not pending)

unfoldable pub rows_from : Referenced → Bool → Option ℕ → ℕ → List ChatTurn → List Row
unfolding row_of
rows_from all pending last i [] = []
rows_from all pending last i (turn ∷ turns) =
    row_of all pending last i turn ∷ rows_from all pending last (suc i) turns

unfoldable pub rows : Referenced → Bool → List ChatTurn → List Row
unfolding rows_from last_answer
rows all pending turns =
    rows_from all pending (last_answer 0 turns) 0 turns ++ (if pending then thinking ∷ [] else [])

-- the number of rows with the way out
abbrev pub ways_out : List Row → ℕ
ways_out [] = 0
ways_out (answer _ _ _ _ true ∷ rest) = suc (ways_out rest)
ways_out (_ ∷ rest) = ways_out rest

abbrev pub has_answer : List ChatTurn → Bool
has_answer turns = any (λ (turn : ChatTurn). not (is_person turn.role)) turns

-- ===== src/Listing/Todos.antt =====
-- `byProject` of apps/web/src/routes/todos.tsx.
use lgtm.Prelude.{
  ℕ, ◌≡◌, Bool, true, false, ◌&&◌, ◌||◌, Option, none, some, List, [], ◌∷◌, map, Text, text,
  text_eq, text_eq_iff, keep, length, All, leb, ltb, ◌==◌, arith,
}
use lgtm.Prelude.Sort.{sort, IsSorted, sort-perm, sort-IsSorted, sort-All}
use lgtm.Prelude.Groups.{push_all, under, Gathers, push_all-Gathers}
use mathlib.Core.List.{Perm}
use lgtm.Types.{Todo, TodoStatus, open_, in_progress, done, TodoPriority, low, medium, high}
use lgtm.Projects.{project_name}

abbrev pub priority_rank : TodoPriority → ℕ
priority_rank high = 0
priority_rank medium = 1
priority_rank low = 2

-- work in flight leads, the backlog follows, finished work sinks
abbrev pub status_rank : TodoStatus → ℕ
status_rank in_progress = 0
status_rank open_ = 1
status_rank done = 2

-- the three differences, of which the first that is not zero counts, are not positive
abbrev pub todo_le : Todo → Todo → Bool
todo_le a b =
    ltb (status_rank a.status) (status_rank b.status)
    || (status_rank a.status == status_rank b.status
        && (ltb (priority_rank a.priority) (priority_rank b.priority)
            || (priority_rank a.priority == priority_rank b.priority
                && leb b.created_at a.created_at)))

unfoldable pub name_of : Option Text → Text
name_of none = text "general"
name_of (some []) = text "general"
name_of (some (c ∷ s)) = project_name (c ∷ s)

abbrev pub project_of : Todo → Text
project_of todo = name_of todo.repository

pub record TodoGroup : Type 0 where
  pub name : Text
  pub todos : List Todo

unfoldable pub group_of : Text × List Todo → TodoGroup
group_of (name, list) = record { name = name; todos = sort todo_le list }

module _ (name_le : Text → Text → Bool) where
  abbrev pub entry_le : Text × List Todo → Text × List Todo → Bool
  entry_le a b = name_le a.0 b.0

  unfoldable pub by_project : List Todo → List TodoGroup
  unfolding group_of
  by_project todos = map group_of (sort entry_le (push_all text_eq project_of [] todos))

-- how many todos the heading counts
unfoldable pub open_count : List Todo → ℕ
open_count todos =
    length (keep (λ t. elim t.status [ done ↦ false | open_ ↦ true | in_progress ↦ true ]) todos)

todo_le-total : (a b : Todo) → todo_le a b ≡ false → todo_le b a ≡ true
todo_le-total a b h = ground arith

todo_le_trans : (a b c : Todo) → todo_le a b ≡ true → todo_le b c ≡ true → todo_le a c ≡ true
todo_le_trans a b c h k = ground arith

-- a group has all the todos of its project, the most pressing first
pub record IsTodoGroup (todos : List Todo) (g : TodoGroup) : Type 0 where
  pub pressing_first : IsSorted todo_le g.todos
  pub complete : Perm g.todos (keep (under text_eq project_of g.name) todos)

group_of-IsTodoGroup :
    (todos : List Todo) (part : List (Text × List Todo))
    → All (Gathers text_eq project_of text_eq_iff todos) part
    → All (IsTodoGroup todos) (map group_of part)
unfolding group_of
group_of-IsTodoGroup todos [] h = tt
group_of-IsTodoGroup todos ((name, list) ∷ part) h = (
  record {
    pressing_first = sort-IsSorted todo_le todo_le-total todo_le_trans list;
    complete = rw (h.0) (sort-perm todo_le _);
  },
  group_of-IsTodoGroup todos part h.1,
)

-- Every group of the page for todos has exactly the todos of its project: those in progress, then
-- the open ones, then those done, each by priority and then the newest first.
pub by_project-IsTodoGroup :
    (name_le : Text → Text → Bool) (todos : List Todo)
    → All (IsTodoGroup todos) (by_project name_le todos)
unfolding by_project
by_project-IsTodoGroup name_le todos =
    group_of-IsTodoGroup todos (sort (entry_le name_le) (push_all text_eq project_of [] todos)) (
      sort-All (entry_le name_le) (Gathers text_eq project_of text_eq_iff todos)
        (push_all text_eq project_of [] todos)
        (push_all-Gathers text_eq project_of text_eq_iff todos))

-- ===== src/Projects.antt =====
-- apps/web/src/components/app-sidebar.tsx: the projects of the sidebar with their tasks. The order of `localeCompare` is a parameter.
pub mod Grouping
pub mod Order
pub mod Complete
mod Tests
use lgtm.Prelude.{
  ℕ, Bool, not, ◌&&◌, ◌||◌, Option, none, some, List, [], ◌∷◌, ◌++◌, map, Text, text_eq, is_empty,
  glue, last_or, keep, take, leb, ltb, ◌==◌, if◌then◌else◌,
}
use lgtm.Prelude.Sort.{sort}
use lgtm.Types.{Task, Project, Chat}
use lgtm.Server.{strip_slashes}
use lgtm.Tasks.Summary.{strip_dot_git}

-- `/[/:]/`
abbrev is_separator : ℕ → Bool
is_separator c = c == b'/' || c == b':'

-- `s.split(REPOSITORY_SEPARATOR)`
unfoldable pub segments : Text → List Text
segments [] = [] ∷ []
segments (c ∷ s) = let rest = segments s in if is_separator c then [] ∷ rest else glue c rest

unfoldable pub project_name : Text → Text
project_name repository =
    let segment = strip_dot_git (last_or [] (segments (strip_slashes repository))) in
    if is_empty segment then repository else segment

-- the entries of the map `byRepository`, in the order in which its keys were set
abbrev pub Entries : Type 0
Entries = List (Text × List Task)

-- `byRepository.set(repository, [])`
unfoldable pub set_empty : Text → Entries → Entries
set_empty repository [] = (repository, []) ∷ []
set_empty repository ((key, tasks) ∷ entries) =
    let rest = set_empty repository entries in
    if text_eq key repository then (key, []) ∷ entries else (key, tasks) ∷ rest

-- the second loop's body: the task joins its bucket, or a new one
unfoldable pub push_task : Task → Entries → Entries
push_task task [] = (task.spec.repository, task ∷ []) ∷ []
push_task task ((key, tasks) ∷ entries) =
    let rest = push_task task entries in
    if text_eq key task.spec.repository
    then (key, tasks ++ task ∷ []) ∷ entries
    else (key, tasks) ∷ rest

abbrev set_record : Option Text → Entries → Entries
set_record none entries = entries
set_record (some repository) entries =
    if is_empty repository then entries else set_empty repository entries

unfoldable pub from_records : Entries → List Project → Entries
unfolding set_empty
from_records entries [] = entries
from_records entries (record_ ∷ records) =
    from_records (set_record record_.repository entries) records

unfoldable pub from_tasks : Entries → List Task → Entries
unfolding push_task
from_tasks entries [] = entries
from_tasks entries (task ∷ tasks) = from_tasks (push_task task entries) tasks

unfoldable pub by_repository : List Task → List Project → Entries
by_repository tasks records = from_tasks (from_records [] records) tasks

-- a project of the sidebar
pub record Listed : Type 0 where
  pub name : Text
  pub repository : Text
  pub tasks : List Task

-- `b.created_at - a.created_at` is not positive
abbrev pub newer : Task → Task → Bool
newer a b = leb b.created_at a.created_at

unfoldable pub listed_of : Text × List Task → Listed
listed_of (repository, tasks) = record {
  name = project_name repository;
  repository = repository;
  tasks = sort newer tasks;
}

-- `tasks[0]?.created_at ?? 0`
abbrev pub newest : List Task → ℕ
newest [] = 0
newest (task ∷ _) = task.created_at

-- `name_le a b`: `a.localeCompare(b)` is not positive
module _ (name_le : Text → Text → Bool) where
  abbrev pub listed_le : Listed → Listed → Bool
  listed_le a b =
      ltb (newest b.tasks) (newest a.tasks)
      || (newest a.tasks == newest b.tasks && name_le a.name b.name)

  unfoldable pub group_by_project : List Task → List Project → List Listed
  unfolding by_repository listed_of
  group_by_project tasks records = sort listed_le (map listed_of (by_repository tasks records))

  -- what the sidebar lists
  unfoldable pub sidebar_projects : List Task → List Project → List Listed
  sidebar_projects tasks records = group_by_project (keep (λ t. not t.archived) tasks) records

abbrev pub recent_chats : ℕ
recent_chats = 8

unfoldable pub shown_chats : List Chat → List Chat
shown_chats chats = take recent_chats (keep (λ c. not c.archived) chats)

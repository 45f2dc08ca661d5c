-- ===== src/Frame/Activity.antt =====
-- The feed of apps/web/src/routes/activity.tsx, what the root of
-- apps/web/src/routes/__root.tsx loads, and what apps/web/src/routes/tasks.index.tsx lists.
use lgtm.Prelude.{
  ℕ, ◌≡◌, Bool, not, Option, none, some, List, [], Text, is_empty, take, leb, ◌==◌, keep, arith,
  if◌then◌else◌,
}
use lgtm.Prelude.Sort.{sort, IsSorted, sort-perm, sort-IsSorted, keep-sort}
use mathlib.Core.List.{Perm}
use lgtm.Types.{ActivityEntry, Task, Chat, Project}
use lgtm.Projects.{project_name}

-- `b.at - a.at` is not positive
abbrev pub newer_entry : ActivityEntry → ActivityEntry → Bool
newer_entry a b = leb b.at a.at

unfoldable pub feed : List ActivityEntry → List ActivityEntry
feed activity = sort newer_entry activity

-- the texts of a row, the optional ones where they are not empty
pub record ActivityLine : Type 0 where
  pub at : ℕ
  pub event : Text
  pub task : Text
  pub project : Text
  pub owner : Option Text
  pub detail : Option Text

abbrev pub unless_empty : Text → Option Text
unless_empty s = if is_empty s then none else some s

unfoldable pub activity_row : ActivityEntry → ActivityLine
activity_row entry = record {
  at = entry.at;
  event = entry.event;
  task = take 8 entry.task;
  project = project_name entry.repository;
  owner = unless_empty entry.owner;
  detail = unless_empty entry.detail;
}

-- The feed has every entry of the activity once, the newest first, and entries of one moment in the
-- order in which the orchestrator has them.
pub feed-newest :
    (activity : List ActivityEntry)
    → IsSorted newer_entry (feed activity)
      × Perm (feed activity) activity
      × ((at : ℕ) → keep (λ e. e.at == at) (feed activity) ≡ keep (λ e. e.at == at) activity)
unfolding feed
feed-newest activity = (
  sort-IsSorted newer_entry (λ a b h. ground arith) (λ a b c h k. ground arith) activity,
  sort-perm newer_entry activity,
  λ at. keep-sort newer_entry (λ e. e.at == at) (λ a b h k. ground arith) activity,
)

-- what a call of the orchestrator gives, or nothing where it throws
unfoldable pub or_none {ℓ} : {A : Type ℓ} → Option (List A) → List A
or_none none = []
or_none (some list) = list

pub record RootData : Type 0 where
  pub chats : List Chat
  pub projects : List Project
  pub tasks : List Task

-- the loader of the root: each of the three calls is caught by itself
unfoldable pub root_loader :
    Option (List Task) → Option (List Chat) → Option (List Project) → RootData
unfolding or_none
root_loader tasks chats projects = record {
  chats = or_none chats;
  projects = or_none projects;
  tasks = or_none tasks;
}

-- the loader of the list of the tasks, which throws where one of its calls does
unfoldable pub tasks_loader {ℓ} :
    {S : Type ℓ} → Option (List Task) → Option S → Option (List Task × S)
tasks_loader none stats = none
tasks_loader (some tasks) none = none
tasks_loader (some tasks) (some stats) = some (keep (λ t. not t.archived) tasks, stats)

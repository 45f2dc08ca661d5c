-- ===== src/NewTask/Pickers.antt =====
-- The pickers of the project and of the runner on the page for a new task, and the address that
-- holds the project (apps/web/src/routes/index.tsx).
pub mod Routed
use lgtm.Prelude.{
  Bool, true, false, Option, none, some, List, [], ◌∷◌, ◌++◌, Text, text, text_eq, is_empty, find,
  keep, decimal, length, if◌then◌else◌,
}
use lgtm.Types.{Executor, Project, RunnerStatus, JsonValue, str, Fields}
use lgtm.Transcript.Events.{member}
use lgtm.Tasks.Composer.Retry.{offers}

-- `validateSearch`
pub record Search : Type 0 where
  pub repo : Option Text
  pub draft : Option Text

abbrev string_of : Option JsonValue → Option Text
string_of (some (str s)) = some s
string_of _ = none

unfoldable pub validate_search : Fields → Search
unfolding member
validate_search search = record {
  repo = string_of (member (text "repo") search);
  draft = string_of (member (text "draft") search);
}

abbrev pub is_some : Option Text → Bool
is_some none = false
is_some (some _) = true

-- the projects that can host a task
unfoldable pub repositories : List Project → List Project
repositories projects = keep (λ (p : Project). is_some p.repository) projects

-- `candidate.repository === repo`, where the address may hold none
abbrev pub in_repository : Option Text → Project → Bool
in_repository repo project = elim project.repository [
  | none ↦ false
  | some r ↦ elim repo [ none ↦ false | some s ↦ text_eq r s ]
]

unfoldable pub selected_project : List Project → Option Text → Option Project
unfolding repositories
selected_project projects repo = find (in_repository repo) (repositories projects)

abbrev or_no_repository : Option Text → Text
or_no_repository none = []
or_no_repository (some s) = s

-- `project?.repository ?? ""`
unfoldable pub selected_repository : Option Project → Text
selected_repository none = []
selected_repository (some project) = or_no_repository project.repository

pub record SwitcherOption : Type 0 where
  pub detail : Option Text
  pub label : Text
  pub value : Text

abbrev project_option : Project → Option Text → List SwitcherOption
project_option project none = []
project_option project (some r) =
    if is_empty r then [] else record { detail = none; label = project.name; value = r } ∷ []

unfoldable pub options_of : List Project → List SwitcherOption
options_of [] = []
options_of (project ∷ projects) = project_option project project.repository ++ options_of projects

unfoldable pub project_options : List Project → List SwitcherOption
unfolding repositories options_of
project_options projects = options_of (repositories projects)

abbrev runner_option : RunnerStatus → SwitcherOption
runner_option runner = record {
  detail = some (decimal (length runner.running) ++ text "/" ++ decimal runner.info.slots);
  label = runner.info.name;
  value = runner.info.name;
}

-- the runners that have the model's executor
unfoldable pub offered_runners : Executor → List RunnerStatus → List SwitcherOption
offered_runners executor [] = []
offered_runners executor (runner ∷ runners) =
    let rest = offered_runners executor runners in
    if offers runner executor then runner_option runner ∷ rest else rest

unfoldable pub runner_options : Executor → List RunnerStatus → List SwitcherOption
unfolding offered_runners
runner_options executor runners =
    record { detail = none; label = text "Auto"; value = [] } ∷ offered_runners executor runners

-- `CompactSwitcher`: what is typed, and whether its list is open
pub record CompactSwitcher : Type 0 where
  pub input_value : Text
  pub open_ : Bool

unfoldable pub selected_option : List SwitcherOption → Text → Option SwitcherOption
selected_option options value = find (λ (o : SwitcherOption). text_eq o.value value) options

unfoldable pub set_open : Bool → CompactSwitcher → CompactSwitcher
set_open next s = record { input_value = []; open_ = next }

-- the switcher, and the value that its owner is told
unfoldable pub choose : Option SwitcherOption → CompactSwitcher → CompactSwitcher × Option Text
choose none s = (s, none)
choose (some option) s = (record s { open_ = false }, some option.value)

-- ===== src/NewTask.antt =====
-- apps/web/src/routes/index.tsx: the page on which a task is composed. What the page keeps is a
-- record; `localStorage` holds a JSON value or nothing, and what cannot be read is nothing.
pub mod Models
pub mod Efforts
pub mod Stored
pub mod Submission
pub mod Restore
pub mod Session
pub mod Branches
pub mod Pickers
pub mod Scores
pub mod Selector
mod Tests
use lgtm.Prelude.{
  Bool, true, false, not, ◌&&◌, ◌||◌, Option, none, some, List, [], ◌∷◌, ◌++◌, Text, text, text_eq,
  is_empty, trim, any, find, if◌then◌else◌,
}
use lgtm.Types.{ReasoningEffort, medium, RunnerStatus, NewTaskSpec, JsonValue}
use lgtm.Server.{ApiCall}
use lgtm.Server.Calls.{enhance_prompt}
use lgtm.Tasks.Composer.Retry.{offers, named}
use lgtm.NewTask.Models.{LlmModel}
use lgtm.NewTask.Efforts.{Configurations, lookup, put}
use lgtm.NewTask.Stored.{Preferences, saved, read_preferences}

pub data Pending : Type 0 where
  ask enhance submit : Pending

pub record Page : Type 0 where
  pub branch : Text
  pub branches : List Text
  pub configurations : Configurations
  pub draft : Text
  pub model : LlmModel
  pub pending : Option Pending
  -- the repository of the project picked, empty if there is none
  pub repository : Text
  pub runner : Option Text
  -- what `localStorage` holds under the page's key
  pub stored : Option JsonValue
  -- whether `localStorage` can be used; where it cannot, each access throws
  pub storage_works : Bool

abbrev pub busy : Page → Bool
busy s = elim s.pending [ none ↦ false | some _ ↦ true ]

-- the first runner of a name
abbrev pub find_runner : Option Text → List RunnerStatus → Option RunnerStatus
find_runner none runners = none
find_runner (some name) runners = find (named name) runners

-- `find(...)?.info.executors.includes(model.executor)`
abbrev pub suits : LlmModel → Option RunnerStatus → Bool
suits model none = false
suits model (some runner) = offers runner model.executor

abbrev is_set : Option Text → Bool
is_set none = false
is_set (some name) = not (is_empty name)

-- `saveModelPreferences`, which catches what a storage throws that cannot be used
unfoldable pub save_preferences : Text → Configurations → Page → Page
save_preferences value configurations s =
    if s.storage_works then record s { stored = some (saved value configurations) } else s

-- a runner that does not have the executor of the new model is let go
unfoldable pub change_model : List RunnerStatus → LlmModel → Page → Page
unfolding save_preferences
change_model runners next s =
    let s' = save_preferences next.value s.configurations (record s { model = next }) in
    if is_set s.runner && not (suits next (find_runner s.runner runners))
    then record s' { runner = none }
    else s'

unfoldable pub change_model_configuration : Text → ReasoningEffort → Page → Page
unfolding save_preferences put
change_model_configuration value effort s =
    let next = put value effort s.configurations in
    save_preferences s.model.value next (record s { configurations = next })

abbrev pub with_preferences : Option Preferences → Page → Page
with_preferences none s = s
with_preferences (some p) s = record s { model = p.model; configurations = p.configurations }

-- the effect of the first rendering
unfoldable pub restore : Page → Page
restore s = with_preferences (read_preferences (if s.storage_works then s.stored else none)) s

unfoldable pub change_branch : Text → Page → Page
change_branch next s = record s {
  branch = next;
  branches = if any (λ b. text_eq b next) s.branches then s.branches else s.branches ++ next ∷ [];
}

unfoldable pub change_runner : Text → Page → Page
change_runner next s = record s { runner = if is_empty next then none else some next }

-- whether there is something to send and nothing is under way
abbrev pub is_blocked : Page → Bool
is_blocked s = is_empty (trim s.draft) || is_empty s.repository || busy s

unfoldable pub enhance_call : Page → Option ApiCall
enhance_call s =
    if is_blocked s then none else some (enhance_prompt (trim s.draft) (some s.repository))

abbrev or_medium : Option ReasoningEffort → ReasoningEffort
or_medium none = medium
or_medium (some effort) = effort

-- the task that `submit` creates
unfoldable pub submission : List RunnerStatus → Page → Option NewTaskSpec
submission runners s =
    if is_blocked s
    then none
    else some (record {
      base_branch = if is_empty (trim s.branch) then text "main" else trim s.branch;
      executor = s.model.executor;
      model = some (some s.model.model);
      prompt = trim s.draft;
      reasoning_effort = some (some (or_medium (lookup s.model.value s.configurations)));
      repository = s.repository;
      runner = some (if suits s.model (find_runner s.runner runners) then s.runner else none);
      sandbox = none;
    })

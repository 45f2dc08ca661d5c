-- ===== src/NewTask/Pickers/Routed.antt =====
-- What picking does (apps/web/src/routes/index.tsx).
use lgtm.Prelude.{
  ◌≡◌, refl, sym, ap, ◌∙◌, Bool, true, false, Option, none, some, List, [], ◌∷◌, Text, text,
  text_eq, text_eq_iff, is_empty, find, any, if◌then◌else◌, Option-cases, Bool-cases, inl, inr,
  arith,
}
use lgtm.Types.{Executor, Project, NewTaskSpec, RunnerStatus, str, Fields, end, field}
use lgtm.Transcript.Events.{member}
use lgtm.Tasks.Composer.Retry.{named}
use lgtm.NewTask.{Page, change_runner, submission, is_blocked, suits}
use lgtm.NewTask.Models.{LlmModel}
use lgtm.NewTask.Pickers.{
  validate_search, repositories, in_repository, selected_project, SwitcherOption, options_of,
  project_options, offered_runners, runner_options,
}

-- the address that `pick` navigates to
abbrev pub picked_search : Text → Fields
picked_search value = field (text "repo") (str value) end

abbrev pub has_value : Text → List SwitcherOption → Bool
has_value value options = any (λ (o : SwitcherOption). text_eq o.value value) options

in_repository-eq :
    (v : Text) (p : Project) → in_repository (some v) p ≡ true → p.repository ≡ some v
in_repository-eq v p h = elim (Option-cases p.repository) [
  | inl e ↦ ground (arith, h, e)
  | inr (r, e) ↦ ground (arith, h, e, text_eq_iff r v)
]

-- an option of a repository stands there for a project of it
has_value-cons :
    (v : Text) (p : Project) (projects : List Project)
    → has_value v (options_of (p ∷ projects)) ≡ true
    → in_repository (some v) p ≡ false
    → has_value v (options_of projects) ≡ true
unfolding options_of
has_value-cons v p projects h k = elim (Option-cases p.repository) [
  | inl e ↦ ground (arith, h, k, e)
  | inr (r, e) ↦ ground (arith, h, k, e)
]

has_value-options_of :
    (v : Text) (projects : List Project)
    → has_value v (options_of projects) ≡ true
    → (p : Project) × (find (in_repository (some v)) projects ≡ some p) × (p.repository ≡ some v)
has_value-options_of v [] h = unfold options_of in cc
has_value-options_of v (p ∷ projects) h = elim (Bool-cases (in_repository (some v) p)) [
  | inl here ↦ (p, ground (arith, here), in_repository-eq v p here)
  | inr other ↦
      let (q, found, same) =
        has_value-options_of v projects (has_value-cons v p projects h other) in
      (q, ground (arith, other, found), same)
]

-- Picking an option of the project switcher navigates to an address that, read again, selects a
-- project of the repository that was picked.
pub pick-selects :
    (projects : List Project) (v : Text)
    → has_value v (project_options projects) ≡ true
    → (p : Project) × (selected_project projects (validate_search (picked_search v)).repo ≡ some p)
      × (p.repository ≡ some v)
      × ((validate_search (picked_search v)).draft ≡ none)
unfolding project_options selected_project validate_search member text text_eq
pick-selects projects v h =
    let (p, found, same) = has_value-options_of v (repositories projects) h in
    (p, found, same, refl)

-- the names of the runners differ
abbrev pub HasDistinctNames : List RunnerStatus → Type 0
HasDistinctNames [] = Unit
HasDistinctNames (r ∷ runners) =
    (any (named r.info.name) runners ≡ false) × HasDistinctNames runners

offered-named :
    (executor : Executor) (v : Text) (runners : List RunnerStatus)
    → has_value v (offered_runners executor runners) ≡ true
    → any (named v) runners ≡ true
unfolding offered_runners
offered-named executor v [] h = h
offered-named executor v (r ∷ runners) h = ground (arith, h, offered-named executor v runners)

offered-suits :
    (model : LlmModel) (v : Text) (runners : List RunnerStatus)
    → HasDistinctNames runners
    → has_value v (offered_runners model.executor runners) ≡ true
    → suits model (find (named v) runners) ≡ true
unfolding offered_runners
offered-suits model v [] distinct h = cc
offered-suits model v (r ∷ runners) (apart, distinct) h =
    elim (Bool-cases (text_eq r.info.name v)) [
      | inl here ↦
          let alone : any (named v) runners ≡ false =
            ap (λ n. any (named n) runners) (sym ((text_eq_iff r.info.name v).0 here)) ∙ apart in
          ground (arith, h, here, alone, offered-named model.executor v runners)
      | inr other ↦ ground (arith, h, other, offered-suits model v runners distinct)
    ]

abbrev pub runner_of : Option NewTaskSpec → Option (Option (Option Text))
runner_of none = none
runner_of (some spec) = some spec.runner

-- With runners of different names, picking one that is offered for the model has the task sent to
-- it, and picking "Auto" leaves the choice to the orchestrator.
pub picked-runner :
    (runners : List RunnerStatus) (s : Page) (v : Text)
    → HasDistinctNames runners
    → has_value v (runner_options s.model.executor runners) ≡ true
    → is_blocked s ≡ false
    → runner_of (submission runners (change_runner v s))
      ≡ some (some (if is_empty v then none else some v))
unfolding runner_options submission change_runner text_eq
picked-runner runners s [] distinct h open_ = rw (open_) refl
picked-runner runners s (c ∷ v) distinct h open_ =
    rw (open_, offered-suits s.model (c ∷ v) runners distinct h) refl

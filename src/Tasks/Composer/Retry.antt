-- ===== src/Tasks/Composer/Retry.antt =====
-- The panel that retries a task (`RetryPanel`): a machine and an executor may be picked, and an
-- empty choice means the same as before.
use lgtm.Prelude.{
  ◌≡◌, ◌≢◌, refl, Bool, true, false, not, ◌&&◌, Option, none, some, List, [], ◌∷◌, ◌++◌, Text, text,
  text_eq, is_empty, any, find, keep, if◌then◌else◌, arith, Bool-cases, inl, inr, ap, ◌∙◌,
}
use lgtm.Prelude.Sort.{sort}
use lgtm.Types.{TaskSpec, Executor, claude, codex, RunnerStatus}

abbrev pub same_executor : Executor → Executor → Bool
same_executor claude claude = true
same_executor codex codex = true
same_executor _ _ = false

abbrev pub offers : RunnerStatus → Executor → Bool
offers runner executor = any (same_executor executor) runner.info.executors

-- the state of the panel; an empty name and no executor are the empty choices
pub record Choice : Type 0 where
  pub runner_name : Text
  pub executor : Option Executor

abbrev pub named : Text → RunnerStatus → Bool
named name runner = text_eq runner.info.name name

abbrev pub or_else : Option Executor → Executor → Executor
or_else none executor = executor
or_else (some e) executor = e

abbrev or_name : Text → Option Text → Option Text
or_name [] other = other
or_name (c ∷ s) other = some (c ∷ s)

-- an empty name is falsy, wherever it comes from
abbrev find_named : Option Text → List RunnerStatus → Option RunnerStatus
find_named none runners = none
find_named (some name) runners = if is_empty name then none else find (named name) runners

unfoldable pub routed_runner : TaskSpec → List RunnerStatus → Choice → Option RunnerStatus
routed_runner spec runners choice = find_named (or_name choice.runner_name spec.runner) runners

unfoldable pub effective_executor : TaskSpec → Choice → Executor
effective_executor spec choice = or_else choice.executor spec.executor

abbrev fits : Option RunnerStatus → Executor → Bool
fits none executor = true
fits (some runner) executor = offers runner executor

-- whether the button is enabled, as far as the machine is concerned
unfoldable pub retry_compatible : TaskSpec → List RunnerStatus → Choice → Bool
unfolding routed_runner effective_executor
retry_compatible spec runners choice =
    fits (routed_runner spec runners choice) (effective_executor spec choice)

abbrev first_executor : List Executor → Option Executor
first_executor [] = none
first_executor (e ∷ _) = some e

abbrev refit : Option RunnerStatus → Executor → Choice → Choice
refit none executor choice = choice
refit (some runner) executor choice =
    if offers runner executor
    then choice
    else record choice { executor = first_executor runner.info.executors }

-- picking a machine also picks an executor that it has, if the one in force is not among them
unfoldable pub change_runner : TaskSpec → List RunnerStatus → Text → Choice → Choice
unfolding effective_executor
change_runner spec runners next choice =
    refit (find_named (or_name next spec.runner) runners) (effective_executor spec choice)
      (record choice { runner_name = next })

-- an executor as the browser's menu gives it, the empty text for the same as before
unfoldable pub change_executor : Text → Choice → Choice
change_executor next choice =
    if is_empty next
    then record choice { executor = none }
    else if text_eq next (text "claude")
    then record choice { executor = some claude }
    else if text_eq next (text "codex")
    then record choice { executor = some codex }
    else choice

-- the machines to pick from, in the order of `localeCompare`, a parameter
module _ (before : Text → Text → Bool) where
  unfoldable pub runner_choices : TaskSpec → List RunnerStatus → List RunnerStatus
  runner_choices spec runners =
      keep
        (λ runner.
          not (elim spec.runner [ none ↦ false | some name ↦ text_eq runner.info.name name ])
          && not (elim runner.info.executors [ [] ↦ true | ◌∷◌ _ _ ↦ false ]))
        (sort (λ a b. before a.info.name b.info.name) runners)

abbrev add_executor : List Executor → Executor → List Executor
add_executor seen e = if any (same_executor e) seen then seen else seen ++ e ∷ []

-- `[...new Set(executors)]`
unfoldable pub distinct : List Executor → List Executor → List Executor
distinct seen [] = seen
distinct seen (e ∷ es) = distinct (add_executor seen e) es

unfoldable pub all_executors : List RunnerStatus → List Executor
all_executors [] = []
all_executors (r ∷ rs) = r.info.executors ++ all_executors rs

unfoldable pub compatible_executors : TaskSpec → List RunnerStatus → Choice → List Executor
unfolding routed_runner distinct all_executors
compatible_executors spec runners choice = elim (routed_runner spec runners choice) [
  | none ↦ distinct [] (all_executors runners)
  | some runner ↦ runner.info.executors
]

unfoldable pub executor_choices : TaskSpec → List RunnerStatus → Choice → List Executor
unfolding compatible_executors
executor_choices spec runners choice =
    keep (λ e. not (same_executor e spec.executor)) (compatible_executors spec runners choice)

refit-runner_name :
    (o : Option RunnerStatus) (e : Executor) (c : Choice)
    → (refit o e c).runner_name ≡ c.runner_name
refit-runner_name none e c = refl
refit-runner_name (some r) e c = ground arith

first-offered :
    (e₀ : Executor) (es : List Executor)
    → es ≢ []
    → any (same_executor (or_else (first_executor es) e₀)) es ≡ true
first-offered e₀ [] h = absurd (h refl)
first-offered e₀ (claude ∷ es) h = refl
first-offered e₀ (codex ∷ es) h = refl

refit-fits :
    (o : Option RunnerStatus) (e₀ : Executor) (c : Choice)
    → ((r : RunnerStatus) → o ≡ some r → r.info.executors ≢ [])
    → fits o (or_else (refit o (or_else c.executor e₀) c).executor e₀) ≡ true
refit-fits none e₀ c has = refl
refit-fits (some r) e₀ c has = elim (Bool-cases (offers r (or_else c.executor e₀))) [
  | inl offered ↦ rw offered offered
  | inr missing ↦ rw missing (first-offered e₀ r.info.executors (has r refl))
]

routed-change_runner :
    (spec : TaskSpec) (runners : List RunnerStatus) (next : Text) (choice : Choice)
    → routed_runner spec runners (change_runner spec runners next choice)
      ≡ find_named (or_name next spec.runner) runners
unfolding routed_runner change_runner
routed-change_runner spec runners next choice =
    ap (λ name. find_named (or_name name spec.runner) runners)
      (refit-runner_name (find_named (or_name next spec.runner) runners)
        (or_else choice.executor spec.executor) (record choice { runner_name = next }))

-- Once a machine has been picked, or the choice of one taken back, the executor in force is one
-- that the machine in force has, unless that machine has none at all.
pub change_runner-compatible :
    (spec : TaskSpec) (runners : List RunnerStatus) (next : Text) (choice : Choice)
    → ((r : RunnerStatus)
        → routed_runner spec runners (change_runner spec runners next choice) ≡ some r
        → r.info.executors ≢ [])
    → retry_compatible spec runners (change_runner spec runners next choice) ≡ true
unfolding retry_compatible change_runner
change_runner-compatible spec runners next choice has =
    let routed = routed-change_runner spec runners next choice in
    ap (λ o. fits o (effective_executor spec (change_runner spec runners next choice))) routed
    ∙ refit-fits (find_named (or_name next spec.runner) runners) spec.executor
        (record choice { runner_name = next }) (λ r e. has r (routed ∙ e))

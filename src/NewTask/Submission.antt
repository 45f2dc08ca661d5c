-- ===== src/NewTask/Submission.antt =====
-- `submit` of apps/web/src/routes/index.tsx.
use lgtm.Prelude.{
  ◌≡◌, ◌≢◌, refl, Bool, true, false, ◌&&◌, Option, none, some, List, [], ◌∷◌, Text, text, is_empty,
  any, find, if◌then◌else◌, arith,
}
use lgtm.Types.{RunnerStatus, NewTaskSpec, Executor}
use lgtm.Tasks.Composer.Retry.{offers, named}
use lgtm.NewTask.Models.{LlmModel}
use lgtm.NewTask.{Page, busy, find_runner, suits, submission}

-- a runner of the name has the executor
abbrev pub serves : List RunnerStatus → Executor → Option Text → Bool
serves runners executor none = true
serves runners executor (some name) = any (λ r. named name r && offers r executor) runners

-- a test of what a search finds
abbrev found_with {ℓ} : {A : Type ℓ} → (A → Bool) → Option A → Bool
found_with q none = false
found_with q (some a) = q a

find-any {ℓ} :
    {A : Type ℓ} (p q : A → Bool) (xs : List A)
    → found_with q (find p xs) ≡ true
    → any (λ x. p x && q x) xs ≡ true
find-any p q [] h = cc
find-any p q (x ∷ xs) h = ground (arith, h, find-any p q xs)

abbrev pub chosen : Option (Option Text) → Option Text
chosen none = none
chosen (some o) = o

runner-serves :
    (runners : List RunnerStatus) (model : LlmModel) (o : Option Text)
    → serves runners model.executor (if suits model (find_runner o runners) then o else none) ≡ true
runner-serves runners model none = refl
runner-serves runners model (some name) =
    ground (arith, find-any (named name) (λ r. offers r model.executor) runners)

main-is_empty : is_empty (text "main") ≡ false
unfolding text
main-is_empty = refl

-- A task is submitted with a prompt, a repository and a branch that are not empty, from a page
-- on which nothing is under way. If it names a runner, one of that name has the executor of
-- the task.
pub submission-serves :
    (runners : List RunnerStatus) (s : Page) (spec : NewTaskSpec)
    → submission runners s ≡ some spec
    → (spec.prompt ≢ [])
      × (spec.repository ≢ [])
      × (spec.base_branch ≢ [])
      × (busy s ≡ false)
      × (serves runners spec.executor (chosen spec.runner) ≡ true)
unfolding submission
submission-serves runners s spec e =
    ground (arith, e, runner-serves runners s.model s.runner, main-is_empty)

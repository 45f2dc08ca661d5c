-- ===== src/Tasks/Summary/Listed.antt =====
-- Which checks and findings the summary of a task lists
-- (apps/web/src/components/task-summary-panel.tsx).
use mathlib.Core.Path.{ap₂}
use lgtm.Prelude.{
  ◌≡◌, refl, sym, ap, ◌∙◌, not, Option, none, some, List, [], ◌∷◌, ◌++◌, keep, Text, trim, is_empty,
  append-nil, append_assoc, Bool-cases, inl, inr, if◌then◌else◌,
}
use lgtm.Types.{TaskStatus, TaskDetail, TaskResult, Finding, Review, ValidationResult}
use lgtm.Tasks.Summary.{is_blocking}
use lgtm.Tasks.Summary.Order.{sort_findings-eq, sort_checks-eq}
use lgtm.Tasks.Summary.Panel.{
  Section, changes, no_changes, checks, review, scratchpad, changes_of, checks_of, review_of,
  result_checks, result_findings, findings_in, sections,
}

abbrev pub listed_checks : List Section → List ValidationResult
listed_checks [] = []
listed_checks (checks cs ∷ ss) = cs ++ listed_checks ss
listed_checks (_ ∷ ss) = listed_checks ss

abbrev pub listed_findings : List Section → List Finding
listed_findings [] = []
listed_findings (review fs ∷ ss) = fs ++ listed_findings ss
listed_findings (_ ∷ ss) = listed_findings ss

-- the checks and the findings of a result, and none without one
abbrev pub validation_of : Option TaskResult → List ValidationResult
validation_of none = []
validation_of (some result) = result.validation

abbrev pub found_in : Option Review → List Finding
found_in none = []
found_in (some r) = r.findings

abbrev pub findings_of : Option TaskResult → List Finding
findings_of none = []
findings_of (some result) = found_in result.review

listed_checks-append :
    (xs ys : List Section) → listed_checks (xs ++ ys) ≡ listed_checks xs ++ listed_checks ys
listed_checks-append [] ys = refl
listed_checks-append (checks cs ∷ xs) ys =
    ap (λ l. cs ++ l) (listed_checks-append xs ys) ∙ sym (append_assoc cs _ _)
listed_checks-append (changes stat files ∷ xs) ys = listed_checks-append xs ys
listed_checks-append (no_changes n words ∷ xs) ys = listed_checks-append xs ys
listed_checks-append (review fs ∷ xs) ys = listed_checks-append xs ys
listed_checks-append (scratchpad s ∷ xs) ys = listed_checks-append xs ys

listed_findings-append :
    (xs ys : List Section) → listed_findings (xs ++ ys) ≡ listed_findings xs ++ listed_findings ys
listed_findings-append [] ys = refl
listed_findings-append (review fs ∷ xs) ys =
    ap (λ l. fs ++ l) (listed_findings-append xs ys) ∙ sym (append_assoc fs _ _)
listed_findings-append (changes stat files ∷ xs) ys = listed_findings-append xs ys
listed_findings-append (no_changes n words ∷ xs) ys = listed_findings-append xs ys
listed_findings-append (checks cs ∷ xs) ys = listed_findings-append xs ys
listed_findings-append (scratchpad s ∷ xs) ys = listed_findings-append xs ys

-- a part of the panel, by the checks and the findings that it lists
abbrev Lists : List Section → List ValidationResult → List Finding → Type 0
Lists ss cs fs = (listed_checks ss ≡ cs) × (listed_findings ss ≡ fs)

Lists-append :
    (xs ys : List Section) (cs cs' : List ValidationResult) (fs fs' : List Finding)
    → Lists xs cs fs
    → Lists ys cs' fs'
    → Lists (xs ++ ys) (cs ++ cs') (fs ++ fs')
Lists-append xs ys cs cs' fs fs' (a, b) (c, d) = (
  listed_checks-append xs ys ∙ ap₂ (λ l m. l ++ m) a c,
  listed_findings-append xs ys ∙ ap₂ (λ l m. l ++ m) b d,
)

Lists-changes_of :
    (status : TaskStatus) (result : Option TaskResult) → Lists (changes_of status result ∷ []) [] []
Lists-changes_of status none = (refl, refl)
Lists-changes_of status (some result) = elim (Bool-cases (is_empty result.diff)) [
  | inl e ↦ rw (e) (refl, refl)
  | inr e ↦ rw (e) (refl, refl)
]

Lists-checks_of : (cs : List ValidationResult) → Lists (checks_of cs) cs []
Lists-checks_of [] = (refl, refl)
Lists-checks_of (c ∷ cs) = (append-nil (c ∷ cs), refl)

Lists-review_of : (fs : List Finding) → Lists (review_of fs) [] fs
Lists-review_of [] = (refl, refl)
Lists-review_of (f ∷ fs) = (refl, append-nil (f ∷ fs))

Lists-scratchpad :
    (s : Text) → Lists (if is_empty (trim s) then [] else scratchpad (trim s) ∷ []) [] []
Lists-scratchpad s = elim (Bool-cases (is_empty (trim s))) [
  | inl e ↦ rw (e) (refl, refl)
  | inr e ↦ rw (e) (refl, refl)
]

Lists-sections :
    (detail : TaskDetail)
    → let result = detail.task.result in
      Lists (sections detail) (result_checks result) (result_findings result)
unfolding sections
Lists-sections detail =
    let task = detail.task in
    let cs = result_checks task.result in
    let fs = result_findings task.result in
    let top = changes_of task.status task.result ∷ [] in
    let foot =
      if is_empty (trim task.scratchpad) then [] else scratchpad (trim task.scratchpad) ∷ [] in
    let head = Lists-changes_of task.status task.result in
    let with_checks = Lists-append top (checks_of cs) [] cs [] [] head (Lists-checks_of cs) in
    let with_review =
      Lists-append (top ++ checks_of cs) (review_of fs) cs [] [] fs with_checks
        (Lists-review_of fs) in
    let whole =
      Lists-append (top ++ checks_of cs ++ review_of fs) foot (cs ++ []) [] fs [] with_review
        (Lists-scratchpad task.scratchpad) in
    (whole.0 ∙ append-nil (cs ++ []) ∙ append-nil cs, whole.1 ∙ append-nil fs)

result_checks-eq :
    (result : Option TaskResult)
    → result_checks result
      ≡ keep (λ c. not c.ok) (validation_of result)
        ++ keep (λ c. not (not c.ok)) (validation_of result)
result_checks-eq none = refl
result_checks-eq (some result) = sort_checks-eq result.validation

findings_in-eq :
    (r : Option Review)
    → findings_in r
      ≡ keep (λ f. is_blocking f.severity) (found_in r)
        ++ keep (λ f. not (is_blocking f.severity)) (found_in r)
findings_in-eq none = refl
findings_in-eq (some r) = sort_findings-eq r.findings

result_findings-eq :
    (result : Option TaskResult)
    → result_findings result
      ≡ keep (λ f. is_blocking f.severity) (findings_of result)
        ++ keep (λ f. not (is_blocking f.severity)) (findings_of result)
result_findings-eq none = refl
result_findings-eq (some result) = findings_in-eq result.review

-- Whatever state a task is in, its summary lists every check and every finding of its result, and
-- no other: the checks that failed and then those that passed, the findings that block and then
-- the warnings, each in the order of the result.
pub sections-listed :
    (detail : TaskDetail)
    → let cs = validation_of detail.task.result in
      let fs = findings_of detail.task.result in
      (listed_checks (sections detail) ≡ keep (λ c. not c.ok) cs ++ keep (λ c. not (not c.ok)) cs)
      × (listed_findings (sections detail)
          ≡ keep (λ f. is_blocking f.severity) fs ++ keep (λ f. not (is_blocking f.severity)) fs)
sections-listed detail =
    let (cs, fs) = Lists-sections detail in
    (cs ∙ result_checks-eq detail.task.result, fs ∙ result_findings-eq detail.task.result)

-- ===== src/Tasks/Summary/Panel.antt =====
-- What the summary of a task lists (apps/web/src/components/task-summary-panel.tsx,
-- apps/web/src/components/task-detail.tsx). How an amount of dollars is written with two decimals is
-- an argument.
use lgtm.Prelude.{
  ℕ, Option, none, some, List, [], ◌∷◌, ◌++◌, Text, text, is_empty, trim, trim_end, decimal, length,
  join, ◌==◌, if◌then◌else◌,
}
use lgtm.Types.{
  Task, TaskStatus, TaskDetail, TaskResult, Execution, SandboxProfile, Finding, Review,
  ValidationResult, SkillRef, Overlap, Usd, off, standard, strict, custom,
}
use lgtm.Frame.Runners.{executor_name}
use lgtm.Tasks.Summary.{is_pending, repository_value, sort_findings, sort_checks, diff_stat, Stat}

-- a value, or the label that stands where there is none
pub data FactValue : Type 0 where
  set unset : Text → FactValue

pub record Fact : Type 0 where
  pub term : Text
  pub value : FactValue

abbrev pub or_unset : Text → Option Text → FactValue
or_unset label none = unset label
or_unset label (some v) = set v

abbrev pub or_other : Option Text → Option Text → Option Text
or_other none other = other
or_other (some v) other = some v

-- the last run, if the task ever ran
abbrev pub last_run : List Execution → Option Execution
last_run [] = none
last_run (e ∷ []) = some e
last_run (_ ∷ e ∷ es) = last_run (e ∷ es)

abbrev pub sandbox_name : SandboxProfile → Text
sandbox_name off = text "off"
sandbox_name standard = text "standard"
sandbox_name strict = text "strict"
sandbox_name custom = text "custom"

abbrev sandbox_fact : Option SandboxProfile → FactValue
sandbox_fact none = unset (text "—")
sandbox_fact (some profile) = set (sandbox_name profile)

abbrev skill_names : List SkillRef → List Text
skill_names [] = []
skill_names (skill ∷ skills) = skill.name ∷ skill_names skills

abbrev skills_value : List SkillRef → FactValue
skills_value [] = unset (text "none")
skills_value (skill ∷ skills) = set (join (text ", ") (skill_names (skill ∷ skills)))

abbrev skills_fact : Option Execution → List Fact
skills_fact none = []
skills_fact (some run) = record { term = text "Skills"; value = skills_value run.skills } ∷ []

abbrev branch_fact : Option TaskResult → List Fact
branch_fact none = []
branch_fact (some result) = record { term = text "Result branch"; value = set result.branch } ∷ []

abbrev cost_text : (Usd → Text) → Usd → Option TaskResult → Text
cost_text to_fixed nothing none = text "$" ++ to_fixed nothing
cost_text to_fixed nothing (some result) = text "$" ++ to_fixed result.cost_usd

-- `Environment`; `nothing` is the amount of no dollars
unfoldable pub environment : (Usd → Text) → Usd → Task → List Fact
unfolding repository_value
environment to_fixed nothing task =
    (record { term = text "Repository"; value = set ((repository_value task.spec.repository).0) }
      ∷ record { term = text "Base branch"; value = set task.spec.base_branch }
      ∷ [])
    ++ branch_fact task.result
    ++ (record {
      term = text "Runner";
      value = or_unset (text "—") (or_other task.runner task.spec.runner);
    }
        ∷ record { term = text "Executor"; value = set (executor_name task.spec.executor) }
        ∷ record { term = text "Model"; value = or_unset (text "default") task.spec.model }
        ∷ [])
    ++ skills_fact (last_run task.executions)
    ++ (record { term = text "Sandbox"; value = sandbox_fact task.spec.sandbox }
        ∷ record { term = text "Cost"; value = set (cost_text to_fixed nothing task.result) }
        ∷ [])

-- a row of the review: whether it blocks, and where it points
abbrev place_of : Option ℕ → Text
place_of none = []
place_of (some line) = text ":" ++ decimal line

unfoldable pub finding_place : Finding → Text
finding_place finding = finding.file ++ place_of finding.line

-- the output under a check
unfoldable pub check_output : ValidationResult → Option Text
check_output check =
    if check.ok
    then none
    else if is_empty (trim check.output_tail)
    then none
    else some (trim_end check.output_tail)

unfoldable pub empty_diff : TaskStatus → Text × Text
unfolding is_pending
empty_diff status =
    if is_pending status
    then (
      text "No diff yet",
      text "The agent is still working. The diff appears here once the run finishes.",
    )
    else (text "This task produced no diff", text "The run ended before it wrote any changes.")

-- a section of the panel
pub data Section : Type 0 where
  changes : Stat → List Text → Section
  no_changes : Option ℕ → Text × Text → Section
  checks : List ValidationResult → Section
  review : List Finding → Section
  scratchpad : Text → Section

abbrev pub changes_of : TaskStatus → Option TaskResult → Section
changes_of status none = no_changes none (empty_diff status)
changes_of status (some result) =
    if is_empty result.diff
    then no_changes (some (length result.changed_files)) (empty_diff status)
    else changes (diff_stat result.diff) result.changed_files

abbrev pub checks_of : List ValidationResult → List Section
checks_of [] = []
checks_of (c ∷ cs) = checks (c ∷ cs) ∷ []

abbrev pub review_of : List Finding → List Section
review_of [] = []
review_of (f ∷ fs) = review (f ∷ fs) ∷ []

abbrev pub result_checks : Option TaskResult → List ValidationResult
result_checks none = []
result_checks (some result) = sort_checks result.validation

abbrev pub findings_in : Option Review → List Finding
findings_in none = []
findings_in (some r) = sort_findings r.findings

abbrev pub result_findings : Option TaskResult → List Finding
result_findings none = []
result_findings (some result) = findings_in result.review

unfoldable pub sections : TaskDetail → List Section
unfolding empty_diff diff_stat sort_checks sort_findings
sections detail =
    let task = detail.task in
    (changes_of task.status task.result ∷ [])
    ++ checks_of (result_checks task.result)
    ++ review_of (result_findings task.result)
    ++ (if is_empty (trim task.scratchpad) then [] else scratchpad (trim task.scratchpad) ∷ [])

-- `OverlapPanel`
unfoldable pub overlap_heading : List Overlap → Option Text
overlap_heading [] = none
overlap_heading overlaps = some (
    if length overlaps == 1
    then text "One other unmerged task touches these files"
    else decimal (length overlaps) ++ text " other unmerged tasks touch these files")

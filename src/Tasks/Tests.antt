-- ===== src/Tasks/Tests.antt =====
-- Tasks, findings and diffs on which the pages of a task and the triage page are run.
use lgtm.Tasks.Review as Review
use lgtm.Tasks.Summary.Panel.{sections}
use lgtm.Tasks.Summary.Listed.{listed_checks, listed_findings, sections-listed}
use lgtm.Types.{TaskDetail, ValidationResult}
use lgtm.Tasks.Review.Carried.{carried_calls}
use lgtm.Server.Calls.{send_follow_up}
use lgtm.Prelude.{
  Bool, true, Text, trim, trim_start, trim_end, is_space, refl, ◌≡◌, ◌≢◌, false, none, some, [],
  ◌∷◌, text, text_eq, arith,
}
use lgtm.Types.{Task, TaskSpec, awaiting_review, timed_out, claude, codex, RunnerStatus}
use lgtm.Tasks.Composer.Retry.{Choice, change_runner, routed_runner, effective_executor}

abbrev spec : TaskSpec
spec = record {
  base_branch = text "main";
  created_by = none;
  executor = claude;
  kind = text "task";
  model = none;
  prompt = text "fix it";
  reasoning_effort = none;
  repository = text "r";
  runner = none;
  sandbox = none;
}

abbrev codex_machine : RunnerStatus
codex_machine = record {
  info = record {
    arch = text "arm64";
    capabilities = [];
    cpu_cores = 4;
    ephemeral = false;
    executors = codex ∷ [];
    memory_mb = 1;
    name = b'm' ∷ [];
    os = text "linux";
    slots = 1;
  };
  running = [];
}

abbrev same_as_before : Choice
same_as_before = record { runner_name = []; executor = none }

machine-has :
    (r : RunnerStatus)
    → routed_runner spec
        (codex_machine ∷ [])
        (change_runner spec (codex_machine ∷ []) (b'm' ∷ []) same_as_before)
      ≡ some r
    → r.info.executors ≢ []
unfolding routed_runner change_runner effective_executor text_eq
machine-has r e = ground (arith, e)

abbrev task : Task
task = record {
  archived = false;
  created_at = 1;
  error = none;
  executions = [];
  files = [];
  id = text "t";
  result = none;
  runner = none;
  scratchpad = [];
  spec = spec;
  status = timed_out;
  title = none;
}

carried_calls_example :
    (Review.run false
      (Review.changed_text (text "again")
        ∷ Review.shown (text "b") awaiting_review
        ∷ Review.submitted
        ∷ [])
      (Review.mounted (text "a") awaiting_review)).box.calls
    ≡ send_follow_up (text "b") (text "again") ∷ []
unfolding trim trim_start trim_end is_space text text_eq
carried_calls_example =
    carried_calls false (text "a") (text "b") (text "again") awaiting_review awaiting_review refl
      refl refl

abbrev check : Text → Bool → ValidationResult
check name ok = record { command = text "make"; name = name; ok = ok; output_tail = [] }

abbrev checked : TaskDetail
checked = record {
  events = [];
  overlaps = [];
  task = record {
    archived = false;
    created_at = 1;
    error = none;
    executions = [];
    files = [];
    id = text "a";
    result = some (record {
      branch = text "b";
      changed_files = [];
      cost_usd = 0;
      diff = [];
      review = none;
      validation = check (text "lint") true ∷ check (text "test") false ∷ [];
    });
    runner = none;
    scratchpad = [];
    spec = spec;
    status = awaiting_review;
    title = none;
  };
}

sections-listed_example :
    (listed_checks (sections checked) ≡ check (text "test") false ∷ check (text "lint") true ∷ [])
    × (listed_findings (sections checked) ≡ [])
sections-listed_example = sections-listed checked

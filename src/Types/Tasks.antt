-- ===== src/Types/Tasks.antt =====
-- apps/web/src/lib/lgtm/types.ts: runners, tasks, their executions and results.
use lgtm.Prelude.{ℕ, Bool, Option, List, Text}

pub data TaskStatus : Type 0 where
  queued running awaiting_review changes_requested conflicted approved merged : TaskStatus
  rejected failed timed_out runner_lost cancelled : TaskStatus

pub data Executor : Type 0 where
  claude codex : Executor

pub data ReasoningEffort : Type 0 where
  low medium high : ReasoningEffort

pub data SandboxProfile : Type 0 where
  off standard strict custom : SandboxProfile

pub data ExecutionStatus : Type 0 where
  running completed failed cancelled : ExecutionStatus

pub data Severity : Type 0 where
  blocking warning : Severity

-- An amount of dollars in whole millionths. The app only formats amounts.
abbrev pub Usd : Type 0
Usd = ℕ

pub record RunnerInfo : Type 0 where
  pub arch : Text
  pub capabilities : List Text
  pub cpu_cores : ℕ
  pub ephemeral : Bool
  pub executors : List Executor
  pub memory_mb : ℕ
  pub name : Text
  pub os : Text
  pub slots : ℕ

pub record RunnerStatus : Type 0 where
  pub info : RunnerInfo
  pub running : List Text

pub record ValidationResult : Type 0 where
  pub command : Text
  pub name : Text
  pub ok : Bool
  pub output_tail : Text

pub record Finding : Type 0 where
  pub file : Text
  pub line : Option ℕ
  pub message : Text
  pub severity : Severity

pub record Review : Type 0 where
  pub executor : Option Executor
  pub findings : List Finding

pub record SkillRef : Type 0 where
  pub name : Text
  pub revision : ℕ

pub record Execution : Type 0 where
  pub artefacts : List Text
  pub attempt : ℕ
  pub cost_usd : Usd
  pub error : Option Text
  pub executor : Executor
  pub finished_at : Option ℕ
  pub model : Option Text
  pub runner : Text
  pub skills : List SkillRef
  pub started_at : ℕ
  pub status : ExecutionStatus
  pub validation : List ValidationResult

pub record TaskResult : Type 0 where
  pub branch : Text
  pub changed_files : List Text
  pub cost_usd : Usd
  pub diff : Text
  pub review : Option Review
  pub validation : List ValidationResult

pub record TaskSpec : Type 0 where
  pub base_branch : Text
  pub created_by : Option Text
  pub executor : Executor
  pub kind : Text
  pub model : Option Text
  pub prompt : Text
  pub reasoning_effort : Option ReasoningEffort
  pub repository : Text
  pub runner : Option Text
  pub sandbox : Option SandboxProfile

-- what the composer sends; an omitted member and an explicit null differ on the wire
pub record NewTaskSpec : Type 0 where
  pub base_branch : Text
  pub executor : Executor
  pub model : Option (Option Text)
  pub prompt : Text
  pub reasoning_effort : Option (Option ReasoningEffort)
  pub repository : Text
  pub runner : Option (Option Text)
  pub sandbox : Option (Option SandboxProfile)

pub record Task : Type 0 where
  pub archived : Bool
  pub created_at : ℕ
  pub error : Option Text
  pub executions : List Execution
  pub files : List Text
  pub id : Text
  pub result : Option TaskResult
  pub runner : Option Text
  pub scratchpad : Text
  pub spec : TaskSpec
  pub status : TaskStatus
  pub title : Option Text

pub record Overlap : Type 0 where
  pub files : List Text
  pub task : Text

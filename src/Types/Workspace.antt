-- ===== src/Types/Workspace.antt =====
-- apps/web/src/lib/lgtm/types.ts: statistics, memories, skills, projects, todos, scratchpads,
-- the activity feed and chats.
use lgtm.Prelude.{ℕ, Bool, Option, List, Text}
use lgtm.Types.Tasks.{Executor, Usd}

pub record ExecutorStats : Type 0 where
  pub attempts : ℕ
  pub completed : ℕ
  pub executor : Executor
  pub failed : ℕ

pub record RunnerStats : Type 0 where
  pub attempts : ℕ
  pub failed : ℕ
  pub median_ms : ℕ
  pub runner : Text

pub record Stats : Type 0 where
  pub approved : ℕ
  pub awaiting_review : ℕ
  pub budget_daily_usd : Option Usd
  pub by_executor : List ExecutorStats
  pub by_runner : List RunnerStats
  pub cancelled : ℕ
  pub cost_usd : Usd
  pub failed : ℕ
  pub median_execution_ms : ℕ
  pub median_queue_ms : ℕ
  pub merged : ℕ
  pub queued : ℕ
  pub rejected : ℕ
  pub retried_tasks : ℕ
  pub running : ℕ
  pub since : ℕ
  pub spent_today : Usd
  pub tasks : ℕ

pub data MemorySource : Type 0 where
  user agent : MemorySource

pub data MemoryVerification : Type 0 where
  agent_proposed user_approved : MemoryVerification

pub record Memory : Type 0 where
  pub content : Text
  pub created_at : ℕ
  pub created_by : Option Text
  pub id : Text
  pub proposed_by : Option Text
  pub repository : Option Text
  pub source : MemorySource
  pub verification : MemoryVerification
  pub workspace : Option Text

pub record SkillFile : Type 0 where
  pub binary : Bool
  pub content : Text
  pub path : Text

pub record Skill : Type 0 where
  pub content : Text
  pub created_at : ℕ
  pub created_by : Option Text
  pub description : Text
  pub files : List SkillFile
  pub id : Text
  pub name : Text
  pub origin : Option Text
  pub proposed_by : Option Text
  pub repository : Option Text
  pub revision : ℕ
  pub source : MemorySource
  pub updated_at : ℕ
  pub verification : MemoryVerification
  pub workspace : Option Text

pub record Project : Type 0 where
  pub id : Text
  pub name : Text
  pub next_number : ℕ
  pub prefix : Text
  pub repository : Option Text

pub data TodoStatus : Type 0 where
  open_ in_progress done : TodoStatus

pub data TodoPriority : Type 0 where
  low medium high : TodoPriority

pub record Todo : Type 0 where
  pub assignee : Option Text
  pub blockers : List Text
  pub created_at : ℕ
  pub created_by : Option Text
  pub description : Text
  pub display_id : Text
  pub id : Text
  pub number : ℕ
  pub priority : TodoPriority
  pub repository : Option Text
  pub status : TodoStatus
  pub tags : List Text
  pub task : Option Text
  pub title : Text
  pub workspace : Option Text

pub record TodoComment : Type 0 where
  pub author : Option Text
  pub body : Text
  pub created_at : ℕ
  pub id : Text
  pub todo : Text

pub record TodoDetail : Type 0 where
  pub comments : List TodoComment
  pub todo : Todo

pub record Scratchpad : Type 0 where
  pub archived : Bool
  pub content : Text
  pub created_at : ℕ
  pub created_by : Option Text
  pub id : Text
  pub repository : Option Text
  pub tags : List Text
  pub title : Text
  pub updated_at : ℕ
  pub workspace : Option Text

pub record ActivityEntry : Type 0 where
  pub at : ℕ
  pub detail : Text
  pub event : Text
  pub owner : Text
  pub repository : Text
  pub task : Text

pub data ChatRole : Type 0 where
  person agent : ChatRole

pub record ChatStep : Type 0 where
  pub detail : Text
  pub tool : Text

pub record ChatTurn : Type 0 where
  pub at : ℕ
  pub failed : Bool
  pub refs : List Text
  pub role : ChatRole
  pub steps : List ChatStep
  pub text : Text
  pub worked_ms : ℕ

pub record Chat : Type 0 where
  pub archived : Bool
  pub created_at : ℕ
  pub created_by : Option Text
  pub id : Text
  pub title : Text
  pub turns : List ChatTurn
  pub workspace : Option Text

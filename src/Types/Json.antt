-- ===== src/Types/Json.antt =====
-- apps/web/src/lib/lgtm/types.ts: JSON values, and the events stored for a task. A number is a
-- natural one: the orchestrator's events hold unsigned integers only.
use lgtm.Prelude.{ℕ, Bool, List, Text}
use lgtm.Types.Tasks.{Overlap, Task}

mutual
  pub data JsonValue : Type 0 where
    str : Text → JsonValue
    num : ℕ → JsonValue
    bool : Bool → JsonValue
    null : JsonValue
    arr : Items → JsonValue
    obj : Fields → JsonValue

  pub data Items : Type 0 where
    nil : Items
    cons : JsonValue → Items → Items

  pub data Fields : Type 0 where
    end : Fields
    field : Text → JsonValue → Fields → Fields

-- `{ type: string; [key: string]: JsonValue }`
pub record EventBody : Type 0 where
  pub type : Text
  pub fields : Fields

pub record StoredEvent : Type 0 where
  pub at : ℕ
  pub event : EventBody

pub record TaskDetail : Type 0 where
  pub events : List StoredEvent
  pub overlaps : List Overlap
  pub task : Task

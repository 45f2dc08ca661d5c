-- ===== src/Sidebar/Tests.antt =====
-- Rows that are archived, and groups that are closed and opened again
-- (apps/web/src/components/app-sidebar.tsx and the rows under it).
use lgtm.Prelude.{◌≡◌, true, false, none, some, List, [], ◌∷◌, text}
use lgtm.Types.{Chat, Task, queued, claude, JsonValue, str, bool, obj, end, field}
use lgtm.Actions.{success}
use lgtm.Sidebar.Rows.{refused, archive_chat, archive_task}
use lgtm.Sidebar.Rows.Reports.{last_toast, fails, tells_of_failure, archive-claims_success}
use lgtm.Sidebar.OpenMap.{Toggle, mounted, is_open, toggled, projects_group}
use lgtm.Sidebar.OpenMap.Reopened.{last_toggle, up_to_taken, reopened}

abbrev chat : Chat
chat = record {
  archived = false;
  created_at = 1;
  created_by = none;
  id = text "c";
  title = text "runs";
  turns = [];
  workspace = none;
}

abbrev task : Task
task = record {
  archived = false;
  created_at = 1;
  error = none;
  executions = [];
  files = [];
  id = text "t";
  result = none;
  runner = none;
  scratchpad = [];
  spec = record {
    base_branch = text "main";
    created_by = none;
    executor = claude;
    kind = text "code";
    model = none;
    prompt = text "fix it";
    reasoning_effort = none;
    repository = text "r";
    runner = none;
    sandbox = none;
  };
  status = queued;
  title = none;
}

archive-claims_success_example :
    let c = (archive_chat chat (refused (text "offline"))).toasts in
    let t = (archive_task task (refused (text "offline"))).toasts in
    (last_toast c ≡ some (success (text "Chat archived")))
    × (last_toast t ≡ some (success (text "Task archived")))
    × (tells_of_failure c ≡ fails (refused (text "offline")))
    × (tells_of_failure t ≡ fails (refused (text "offline")))
archive-claims_success_example = archive-claims_success chat task (refused (text "offline"))

abbrev stored : JsonValue
stored = obj (field (text "r") (bool false) (field (text "q") (str (text "x")) end))

-- the storage is full when the last of them is made
abbrev toggles : List Toggle
toggles =
    record { key = projects_group; is_open = false; takes = true }
    ∷ record { key = text "r"; is_open = true; takes = true }
    ∷ record { key = projects_group; is_open = true; takes = false }
    ∷ []

reopened_example :
    let s = toggled toggles (mounted (some stored)) in
    let before = is_open projects_group (mounted (some stored)) in
    (is_open projects_group s ≡ last_toggle projects_group before toggles)
    × (is_open projects_group (mounted s.stored)
        ≡ last_toggle projects_group before (up_to_taken toggles))
reopened_example = reopened (some stored) toggles projects_group

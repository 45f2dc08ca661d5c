-- ===== src/Transcript/Tests.antt =====
-- The feed of a small task (apps/web/src/components/task-transcript.tsx).
use lgtm.Prelude.{ℕ, ◌≡◌, refl, none, List, [], ◌∷◌, Text, text, false, All}
use lgtm.Types.{str, Fields, end, field, StoredEvent, Task, claude, running}
use lgtm.Transcript.Items.{
  Item, agent, tool, single, activity, ToolItem, command, file, terminal_icon, code_icon, span,
  file_path,
}
use lgtm.Transcript.Grouping.{group_activity, group_from, push_grouped, grouped_with}
use lgtm.Transcript.Grouping.Runs.{
  ungroup, Separated, IsRun, ungroup-group_activity, group_activity-Separated,
}

abbrev event_of : ℕ → Text → Fields → StoredEvent
event_of at type fields = record { at = at; event = record { type = type; fields = fields } }

abbrev task : Task
task = record {
  archived = false;
  created_at = 1;
  error = none;
  executions = [];
  files = [];
  id = text "t1";
  result = none;
  runner = none;
  scratchpad = [];
  spec = record {
    base_branch = text "main";
    created_by = none;
    executor = claude;
    kind = text "task";
    model = none;
    prompt = text "fix it";
    reasoning_effort = none;
    repository = text "r";
    runner = none;
    sandbox = none;
  };
  status = running;
  title = none;
}

abbrev line_of : ℕ → Text → StoredEvent
line_of at line = event_of at (text "output") (field (text "line") (str line) end)

abbrev events : List StoredEvent
events =
    event_of 2 (text "command") (field (text "command") (str (text "cargo test")) end)
    ∷ line_of 3 (text "ok")
    ∷ line_of 4 (text "done")
    ∷ event_of 5 (text "some_event") end
    ∷ []

abbrev ran : ToolItem
ran = record { at = 2; tool = command; icon = terminal_icon; body = span (text "ls"); lines = [] }

abbrev touched : ToolItem
touched = record { at = 3; tool = file; icon = code_icon; body = file_path (text "a"); lines = [] }

abbrev items : List Item
items = tool ran ∷ tool touched ∷ agent 4 (text "so") ∷ tool ran ∷ []

grouped-items :
    group_activity items
    ≡ activity 2 (ran ∷ touched ∷ []) ∷ single (agent 4 (text "so")) ∷ single (tool ran) ∷ []
unfolding group_activity group_from push_grouped grouped_with
grouped-items = refl

ungroup-group_activity_example : ungroup (group_activity items) ≡ items
ungroup-group_activity_example = ungroup-group_activity items

group_activity-Separated_example :
    Separated (group_activity items) × All IsRun (group_activity items)
group_activity-Separated_example = group_activity-Separated items

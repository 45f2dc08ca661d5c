-- ===== src/Drafts/Tests.antt =====
-- The row of a memory that is edited (apps/web/src/routes/memories.tsx) and a comment that is
-- refused (apps/web/src/components/todo-activity.tsx).
use lgtm.Prelude.{text}
use lgtm.Actions
use lgtm.Actions.{mounted, busy}
use lgtm.Actions.Outcome.{refused, all_well, shown}

abbrev offline : Actions.Outcome.Ending
offline = refused (text "offline")

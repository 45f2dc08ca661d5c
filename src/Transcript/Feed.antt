-- ===== src/Transcript/Feed.antt =====
-- `buildItems` of apps/web/src/components/task-transcript.tsx.
pub mod Folding
use lgtm.Prelude.{Option, none, some, List, [], ◌∷◌, ◌++◌, Bool, true, false}
use lgtm.Types.{Task, StoredEvent, TaskStatus, queued, running}
use lgtm.Transcript.Items.{Item, user, tool, output}
use lgtm.Transcript.Lifecycle.{to_item}

-- `last.lines.push(...item.lines)`, where the row before an output can take it
unfoldable pub folded : Item → Item → Option Item
folded (tool t) (output at lines) = some (tool (record t { lines = t.lines ++ lines }))
folded (output at₀ lines₀) (output at lines) = some (output at₀ (lines₀ ++ lines))
folded last item = none

abbrev replace_or_push : Item → Item → Option Item → List Item
replace_or_push last item none = last ∷ item ∷ []
replace_or_push last item (some last') = last' ∷ []

-- one round of the loop, at the end of the list
unfoldable pub push_item : List Item → Item → List Item
unfolding folded
push_item [] item = item ∷ []
push_item (last ∷ []) item = replace_or_push last item (folded last item)
push_item (x ∷ y ∷ rest) item = x ∷ push_item (y ∷ rest) item

abbrev push_some : List Item → Option Item → List Item
push_some items none = items
push_some items (some item) = push_item items item

unfoldable pub build_from : List Item → List StoredEvent → List Item
unfolding push_item
build_from items [] = items
build_from items (stored ∷ events) = build_from (push_some items (to_item stored)) events

unfoldable pub build_items : Task → List StoredEvent → List Item
unfolding build_from
build_items task events =
    build_from (user task.created_at task.spec.created_by task.spec.prompt ∷ []) events

-- whether the transcript ends in a line that says what the task waits for
unfoldable pub is_live : TaskStatus → Bool
is_live queued = true
is_live running = true
is_live _ = false

-- ===== src/Transcript/Feed/Folding.antt =====
-- The folding of output in `buildItems` (apps/web/src/components/task-transcript.tsx).
use lgtm.Prelude.{
  ◌≡◌, ◌≢◌, refl, sym, ◌∙◌, ap, Option, none, some, List, [], ◌∷◌, ◌++◌, append_assoc, append-nil,
  Text, arith,
}
use lgtm.Types.{Task, StoredEvent}
use lgtm.Transcript.Items.{Item, user, tool, output}
use lgtm.Transcript.Lifecycle.{item_of, to_item}
use lgtm.Transcript.Feed.{folded, replace_or_push, push_item, push_some, build_from, build_items}

-- the raw output that a row shows
abbrev pub lines_of : Item → List Text
lines_of (tool t) = t.lines
lines_of (output at lines) = lines
lines_of _ = []

abbrev pub all_lines : List Item → List Text
all_lines [] = []
all_lines (x ∷ xs) = lines_of x ++ all_lines xs

-- a row without its output, and no row for output of its own
abbrev pub bare : Item → List Item
bare (tool t) = tool (record t { lines = [] }) ∷ []
bare (output _ _) = []
bare item = item ∷ []

abbrev pub narration : List Item → List Item
narration [] = []
narration (x ∷ xs) = bare x ++ narration xs

-- an event's own row
abbrev pub listed : Option Item → List Item
listed none = []
listed (some item) = item ∷ []

abbrev pub rows : List StoredEvent → List Item
rows [] = []
rows (stored ∷ events) = listed (to_item stored) ++ rows events

-- No event is dropped: every stored event has a row of its own.
pub to_item_total : (stored : StoredEvent) → to_item stored ≢ none
unfolding to_item item_of
to_item_total stored = ground arith

folded-narration :
    (last item : Item)
    → narration (replace_or_push last item (folded last item)) ≡ bare last ++ bare item
unfolding folded
folded-narration (tool t) (output at lines) = refl
folded-narration (output at₀ lines₀) (output at lines) = refl
folded-narration last item = ap (λ l. bare last ++ l) (append-nil (bare item))

push_item-narration :
    (items : List Item) (item : Item)
    → narration (push_item items item) ≡ narration items ++ bare item
unfolding push_item
push_item-narration [] item = append-nil (bare item)
push_item-narration (last ∷ []) item =
    folded-narration last item ∙ ap (λ l. l ++ bare item) (sym (append-nil (bare last)))
push_item-narration (x ∷ y ∷ rest) item =
    ap (λ l. bare x ++ l) (push_item-narration (y ∷ rest) item)
    ∙ sym (append_assoc (bare x) (narration (y ∷ rest)) (bare item))

push_some-narration :
    (items : List Item) (o : Option Item)
    → narration (push_some items o) ≡ narration items ++ narration (listed o)
push_some-narration items none = sym (append-nil (narration items))
push_some-narration items (some item) =
    push_item-narration items item ∙ ap (λ l. narration items ++ l) (sym (append-nil (bare item)))

narration-append : (xs ys : List Item) → narration (xs ++ ys) ≡ narration xs ++ narration ys
narration-append [] ys = refl
narration-append (x ∷ xs) ys = simp (narration-append xs ys, append_assoc)

build_from-narration :
    (items : List Item) (events : List StoredEvent)
    → narration (build_from items events) ≡ narration items ++ narration (rows events)
unfolding build_from
build_from-narration items [] = sym (append-nil (narration items))
build_from-narration items (e ∷ events) =
    build_from-narration (push_some items (to_item e)) events
    ∙ simp (push_some-narration, narration-append, append_assoc)

-- Apart from output, the transcript is the prompt and then the row of each event, in the order of
-- the events.
pub build_items-narration :
    (task : Task) (events : List StoredEvent)
    → narration (build_items task events)
      ≡ user task.created_at task.spec.created_by task.spec.prompt ∷ narration (rows events)
unfolding build_items
build_items-narration task events = build_from-narration _ events

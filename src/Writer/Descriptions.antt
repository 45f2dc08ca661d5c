-- ===== src/Writer/Descriptions.antt =====
-- The save loop of a todo's description (apps/web/src/routes/todos_.$id.tsx) as a writer.
use lgtm.Prelude.{List, [], ◌∷◌, Text}
use lgtm.Todos.Description.{Description, Event, markdown}
use lgtm.Writer.{Writer, is_some}

abbrev pub edits : List Event → List Text
edits [] = []
edits (markdown md ∷ es) = md ∷ edits es
edits (_ ∷ es) = edits es

module _ {R : Type 0} (request : Text → R) where
  abbrev pub view : Description R → Writer R
  view d = record { latest = d.latest; busy = is_some d.in_flight; sent = d.sent }

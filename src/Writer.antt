-- ===== src/Writer.antt =====
-- What the two save loops of the web app promise, without their refs: a writer that has the latest
-- text of what is edited, makes one request at a time, and always sends the text that is the
-- latest when it begins. apps/web/src/routes/scratchpads_.$id.tsx (and skills_.$id.tsx) and
-- apps/web/src/routes/todos_.$id.tsx carry it out in different ways.
pub mod Saver
pub mod Documents
pub mod Descriptions
mod Tests
use lgtm.Prelude.{◌≡◌, Bool, true, false, Option, none, some, List, [], ◌∷◌, ◌++◌, Text}

pub record Writer (R : Type 0) : Type 0 where
  pub latest : Text
  pub busy : Bool
  -- the requests made, oldest first
  pub sent : List R

abbrev pub fresh : {R : Type 0} → Text → Writer R
fresh content = record { latest = content; busy = false; sent = [] }

abbrev pub is_some : Option Text → Bool
is_some none = false
is_some (some _) = true

module _ {R : Type 0} (request : Text → R) where
  -- what a writer may have become after the edits of the list
  pub data Trace (w : Writer R) : List Text → Writer R → Type 0 where
    here : Trace w [] w
    edited :
        {made made' : List Text} {v v' : Writer R}
        → Trace w made v
        → (content : Text) → made' ≡ made ++ content ∷ []
        → v' ≡ record v { latest = content }
        → Trace w made' v'
    began :
        {made : List Text} {v v' : Writer R}
        → Trace w made v
        → v.busy ≡ false
        → v' ≡ record v { busy = true; sent = v.sent ++ request v.latest ∷ [] }
        → Trace w made v'
    settled :
        {made : List Text} {v v' : Writer R}
        → Trace w made v
        → v.busy ≡ true
        → v' ≡ record v { busy = false }
        → Trace w made v'

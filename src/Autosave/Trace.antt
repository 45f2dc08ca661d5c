-- ===== src/Autosave/Trace.antt =====
-- What a list of events of the save loop (apps/web/src/routes/scratchpads_.$id.tsx) holds.
use lgtm.Prelude.{Bool, true, false, List, [], ◌∷◌, ◌++◌, ◌||◌, ◌≡◌, refl, Text}
use lgtm.Autosave.{Event, markdown, rejected}

abbrev pub edits : List Event → List Text
edits [] = []
edits (markdown content ∷ es) = content ∷ edits es
edits (_ ∷ es) = edits es

abbrev pub is_rejection : Event → Bool
is_rejection (rejected _) = true
is_rejection _ = false

abbrev pub fails : List Event → Bool
fails [] = false
fails (e ∷ es) = is_rejection e || fails es

pub edits-cons : (e : Event) (es : List Event) → edits (e ∷ es) ≡ edits (e ∷ []) ++ edits es
edits-cons (markdown c) es = refl
edits-cons _ es = refl

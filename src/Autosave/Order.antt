-- ===== src/Autosave/Order.antt =====
-- The requests of the save loop (apps/web/src/routes/scratchpads_.$id.tsx): their number and order.
use mathlib.Core.List.{Sublist, sublist-append_left, map-append}
use mathlib.Core.List.Sublist
use lgtm.Prelude.{
  ℕ, ◌+◌, ◌≡◌, Bool, true, false, Option, none, some, List, [], ◌∷◌, ◌++◌, map, length, append-nil,
  append_assoc, length-append, arith, Text,
}
use lgtm.Autosave.{
  SaveState, saving, Document, Event, markdown, resolved, rejected, saved_shown, open_document,
  on_markdown, land, fail, settle, step, run,
}
use lgtm.Autosave.Trace.{edits, edits-cons}

abbrev pub outstanding : Option Text → ℕ
outstanding none = 0
outstanding (some _) = 1

abbrev pub is_saving : SaveState → Bool
is_saving saving = true
is_saving _ = false

abbrev pub is_some : Option Text → Bool
is_some none = false
is_some (some _) = true

pub record IsConsistent {R : Type 0} (d : Document R) : Type 0 where
  pub one_request : length d.sent ≡ d.settled + outstanding d.in_flight
  pub shown : is_saving d.save_state ≡ is_some d.in_flight

module _ {R : Type 0} (request : Text → R) where
  step-IsConsistent :
      (e : Event) (d : Document R) → IsConsistent d → IsConsistent (step request e d)
  unfolding step
  step-IsConsistent (markdown c) d h = ground (arith, length-append d.sent (request c ∷ []))
  step-IsConsistent resolved d h = grind (arith, length-append)
  step-IsConsistent (rejected reason) d h = ground arith
  step-IsConsistent saved_shown d h = ground arith

  run-IsConsistent_from :
      (es : List Event) (d : Document R) → IsConsistent d → IsConsistent (run request es d)
  unfolding run
  run-IsConsistent_from [] d h = h
  run-IsConsistent_from (e ∷ es) d h =
      run-IsConsistent_from es (step request e d) (step-IsConsistent e d h)

  -- Whatever happens to a document after it is opened, at most one of its requests is
  -- outstanding, and the line says "Saving…" exactly while one is.
  pub run-IsConsistent :
      (content : Text) (es : List Event) → IsConsistent (run request es (open_document content))
  unfolding open_document
  run-IsConsistent content es = run-IsConsistent_from es _ (ground arith)

-- the text that waits for the request in flight
abbrev pub parked : Option Text → List Text
parked none = []
parked (some content) = content ∷ []

module _ {R : Type 0} (request : Text → R) where
  -- what was sent, and the parked text behind it
  abbrev pub trail : Document R → List R
  trail d = d.sent ++ map request (parked d.queued)

  pub trail-on_markdown :
      (c : Text) (d : Document R) → trail (on_markdown request c d) ≡ d.sent ++ request c ∷ []
  unfolding on_markdown
  trail-on_markdown c d = ground (arith, append-nil (d.sent ++ request c ∷ []))

  pub trail-land : (d : Document R) → trail (land request d) ≡ trail d
  unfolding land
  trail-land d = grind (arith, append-nil)

  pub trail-fail : (reason : Text) (d : Document R) → trail (fail request reason d) ≡ trail d
  unfolding fail
  trail-fail reason d = ground arith

  pub trail-settle : (d : Document R) → trail (settle request d) ≡ trail d
  unfolding settle
  trail-settle d = ground arith

  abbrev IsOrdered : List Text → Document R → Type 0
  IsOrdered made d = Sublist (trail d) (map request made)

  step-IsOrdered :
      (made : List Text) (e : Event) (d : Document R)
      → IsOrdered made d
      → IsOrdered (made ++ edits (e ∷ [])) (step request e d)
  unfolding step
  step-IsOrdered made (markdown c) d h =
      rw (trail-on_markdown c d, map-append)
        (Sublist.append (Sublist.trans (sublist-append_left _ _) h) (Sublist.refl _))
  step-IsOrdered made resolved d h = rw (append-nil made, trail-land d) h
  step-IsOrdered made (rejected reason) d h = rw (append-nil made, trail-fail reason d) h
  step-IsOrdered made saved_shown d h = rw (append-nil made, trail-settle d) h

  run-IsOrdered :
      (made : List Text) (es : List Event) (d : Document R)
      → IsOrdered made d
      → IsOrdered (made ++ edits es) (run request es d)
  unfolding run
  run-IsOrdered made [] d h = rw (append-nil made) h
  run-IsOrdered made (e ∷ es) d h =
      rw (edits-cons e es, ← append_assoc made (edits (e ∷ [])) (edits es))
        (run-IsOrdered (made ++ edits (e ∷ [])) es (step request e d) (step-IsOrdered made e d h))

  -- The requests of a document, with the parked text behind them, are some of the edits made to
  -- it, each at most once and in the order in which they were made.
  pub sent-sublist-edits :
      (content : Text) (es : List Event)
      → Sublist (trail (run request es (open_document content))) (map request (edits es))
  unfolding open_document
  sent-sublist-edits content es = run-IsOrdered [] es _ (Sublist.refl [])

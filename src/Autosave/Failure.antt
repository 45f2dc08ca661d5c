-- ===== src/Autosave/Failure.antt =====
-- A failed request of the save loop (apps/web/src/routes/scratchpads_.$id.tsx), and the text that
-- was parked behind it.
use lgtm.Prelude.{◌≡◌, true, none, some, List, [], ◌∷◌, ◌++◌, arith, Text}
use lgtm.Autosave.{
  Document, Event, resolved, saved_shown, on_markdown, land, fail, settle, step, run,
}
use lgtm.Autosave.Latest.{quiet}

module _ {R : Type 0} (request : Text → R) where
  -- a document with nothing in flight sends nothing until the next edit
  record IsStopped (sent : List R) (parked : Text) (d : Document R) : Type 0 where
    landed : d.in_flight ≡ none
    kept : d.sent ≡ sent
    waiting : d.queued ≡ some parked

  run-quiet-IsStopped :
      (sent : List R) (c : Text) (es : List Event) (d : Document R)
      → quiet es ≡ true
      → IsStopped sent c d
      → IsStopped sent c (run request es d)
  unfolding run step
  run-quiet-IsStopped sent c [] d q h = h
  run-quiet-IsStopped sent c (resolved ∷ es) d q h =
      run-quiet-IsStopped sent c es (land request d) q (unfold land in ground arith)
  run-quiet-IsStopped sent c (saved_shown ∷ es) d q h =
      run-quiet-IsStopped sent c es (settle request d) q (unfold settle in ground arith)
  run-quiet-IsStopped sent c (_ ∷ es) d q h = cc

  -- If the request in flight fails while a newer text is parked behind it, the parked text is
  -- not sent: until the next edit no request is made, whatever settles or times out, although
  -- the text stays parked and is the document's latest.
  pub fail_strands_parked :
      (d : Document R) (x c reason : Text) (es : List Event)
      → d.in_flight ≡ some x
      → quiet es ≡ true
      → let d' = run request es (fail request reason (on_markdown request c d)) in
        (d'.sent ≡ d.sent) × (d'.queued ≡ some c) × (d'.in_flight ≡ none)
  fail_strands_parked d x c reason es e q =
      let h =
        run-quiet-IsStopped d.sent c es (fail request reason (on_markdown request c d)) q
          (unfold fail on_markdown in ground arith) in
      (h.kept, h.waiting, h.landed)

  -- A failed request is reported once, with its reason, and the next edit is sent at once.
  pub fail_then_edit :
      (d : Document R) (x c reason : Text)
      → d.in_flight ≡ some x
      → let d' = fail request reason d in
        (d'.toasts ≡ d.toasts ++ reason ∷ [])
        × (d'.sent ≡ d.sent)
        × ((on_markdown request c d').sent ≡ d.sent ++ request c ∷ [])
  unfolding fail on_markdown
  fail_then_edit d x c reason e = ground arith

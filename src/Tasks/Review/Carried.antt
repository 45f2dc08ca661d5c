-- ===== src/Tasks/Review/Carried.antt =====
-- A follow-up that is typed for one task while the page goes to another
-- (apps/web/src/components/task-composer.tsx, apps/web/src/routes/tasks.$id.tsx).
use lgtm.Prelude.{
  ◌≡◌, refl, ap, ◌∙◌, Bool, true, false, not, ◌&&◌, [], ◌∷◌, Text, text_eq, Bool-cases, inl, inr,
  arith, if◌then◌else◌, trim, is_empty, trim_start, trim_end, ◌++◌,
}
use lgtm.Types.{TaskStatus}
use lgtm.Actions.{busy}
use lgtm.Server.Calls.{send_follow_up}
use lgtm.Drafts
use lgtm.Drafts.{follow_up_action}
use lgtm.Tasks.Composer.{includes, respondable_statuses, follow_up}
use lgtm.Tasks.Review.{
  Review, mounted, begin, submit, change_text, show, changed_text, submitted, shown, step, run,
}

-- a box with a text, on a page at rest
submit-calls :
    (s : Review)
    → includes respondable_statuses s.status ≡ true
    → busy s.box.actions ≡ false
    → is_empty (trim s.box.draft) ≡ false
    → (submit s).box.calls ≡ s.box.calls ++ send_follow_up s.id (trim s.box.draft) ∷ []
unfolding submit begin follow_up_action follow_up Drafts.start
submit-calls s h free full = ground (arith, h, free, full)

-- an empty box
submit-empty : (s : Review) → s.box.draft ≡ [] → (submit s).box.calls ≡ s.box.calls
unfolding submit follow_up_action follow_up trim trim_start trim_end
submit-empty s e = ground (arith, e)

abbrev typed_in : Text → Text → TaskStatus → Review
typed_in body id status = record (mounted id status) {
  box = record (mounted id status).box { draft = body };
}

change_text-mounted :
    (id body : Text) (status : TaskStatus)
    → includes respondable_statuses status ≡ true
    → change_text body (mounted id status) ≡ typed_in body id status
unfolding change_text mounted
change_text-mounted id body status h = rw h refl

show-anew :
    (remounts : Bool) (other : Text) (later : TaskStatus) (s : Review)
    → (remounts && not (text_eq other s.id)) ≡ true
    → show remounts other later s ≡ record (mounted other later) { started = s.started }
unfolding show
show-anew remounts other later s e = rw (e) refl

show-same :
    (remounts : Bool) (other : Text) (later : TaskStatus) (s : Review)
    → (remounts && not (text_eq other s.id)) ≡ false
    → show remounts other later s ≡ record s { id = other; status = later }
unfolding show
show-same remounts other later s e = rw (e) refl

run-submit :
    (remounts : Bool) (other body : Text) (later : TaskStatus) (s : Review)
    → run remounts (changed_text body ∷ shown other later ∷ submitted ∷ []) s
      ≡ submit (show remounts other later (change_text body s))
unfolding run step
run-submit remounts other body later s = refl

-- A follow-up that is typed for one task, with the page then given another task that takes one, and
-- submitted: where the router mounts the page anew for another task the box is empty and nothing is
-- sent, and where it keeps the page, the text that was typed for the first task is sent to the
-- second.
pub carried_calls :
    (remounts : Bool) (id other body : Text) (status later : TaskStatus)
    → includes respondable_statuses status ≡ true
    → includes respondable_statuses later ≡ true
    → is_empty (trim body) ≡ false
    → (run remounts
        (changed_text body ∷ shown other later ∷ submitted ∷ [])
        (mounted id status)).box.calls
      ≡ (if remounts && not (text_eq other id) then [] else send_follow_up other (trim body) ∷ [])
unfolding mounted
carried_calls remounts id other body status later h k full =
    let s = typed_in body id status in
    let shown_by =
      ap (λ t. (submit (show remounts other later t)).box.calls)
        (change_text-mounted id body status h) in
    ap (λ (t : Review). t.box.calls) (run-submit remounts other body later (mounted id status))
    ∙ shown_by
    ∙ elim (Bool-cases (remounts && not (text_eq other id))) [
      | inl anew ↦
          ap (λ t. (submit t).box.calls) (show-anew remounts other later s anew)
          ∙ submit-empty (record (mounted other later) { started = [] }) refl
          ∙ rw (anew) refl
      | inr same ↦
          ap (λ t. (submit t).box.calls) (show-same remounts other later s same)
          ∙ submit-calls (record s { id = other; status = later }) k refl full
          ∙ rw (same) refl
    ]

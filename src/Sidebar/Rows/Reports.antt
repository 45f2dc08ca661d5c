-- ===== src/Sidebar/Rows/Reports.antt =====
-- What the menus of the rows report (apps/web/src/components/chat-item.tsx, row-menu.tsx and
-- project-item.tsx).
use lgtm.Prelude.{
  ◌||◌, ◌≡◌, ◌≢◌, refl, Bool, true, false, Option, none, some, List, [], ◌∷◌, Text, text,
  text_eq_iff, is_empty, trim, arith,
}
use lgtm.Types.{Chat, Task}
use lgtm.Actions.{Toast, success, failure}
use lgtm.Sidebar.Rows.{
  Ending, both_resolve, refused, refetch_fails, renamed, archive_chat, archive_task,
}

-- the last toast
abbrev pub last_toast : List Toast → Option Toast
last_toast [] = none
last_toast (t ∷ []) = some t
last_toast (_ ∷ t ∷ ts) = last_toast (t ∷ ts)

abbrev pub fails : Ending → Bool
fails both_resolve = false
fails _ = true

abbrev pub is_failure : Toast → Bool
is_failure (success _) = false
is_failure (failure _) = true

abbrev pub tells_of_failure : List Toast → Bool
tells_of_failure [] = false
tells_of_failure (t ∷ ts) = is_failure t || tells_of_failure ts

-- Archiving a chat or a task of the sidebar ends with the toast of its success, also when the
-- orchestrator refused it: the reason of a failure is shown exactly when something failed, and the
-- success is claimed behind it.
pub archive-claims_success :
    (chat : Chat) (task : Task) (ending : Ending)
    → let c = (archive_chat chat ending).toasts in
      let t = (archive_task task ending).toasts in
      (last_toast c ≡ some (success (text "Chat archived")))
      × (last_toast t ≡ some (success (text "Task archived")))
      × (tells_of_failure c ≡ fails ending)
      × (tells_of_failure t ≡ fails ending)
unfolding archive_chat archive_task
archive-claims_success chat task both_resolve = (refl, refl, refl, refl)
archive-claims_success chat task (refused reason) = (refl, refl, refl, refl)
archive-claims_success chat task (refetch_fails reason) = (refl, refl, refl, refl)

-- A prompt renames a row to a trimmed name that is not empty and not the one that it has; asked
-- again with that name as the row's, it renames nothing.
pub renamed-once :
    (title entered next : Text)
    → renamed title (some entered) ≡ some next
    → (next ≡ trim entered)
      × (is_empty next ≡ false)
      × (next ≢ title)
      × (renamed next (some entered) ≡ none)
unfolding renamed
renamed-once title entered next e =
    let same : next ≡ trim entered = ground (arith, e) in
    (
      same,
      ground (arith, e),
      λ k. ground (arith, e, text_eq_iff (trim entered) title),
      ground (arith, e, text_eq_iff (trim entered) next),
    )

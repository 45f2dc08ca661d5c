-- ===== src/Sidebar/Rows/Marks.antt =====
-- The marks of the tasks of the sidebar (apps/web/src/components/project-item.tsx) beside the page
-- that sorts tasks by what a person has to do (apps/web/src/components/task-triage.tsx).
use lgtm.Prelude.{◌≡◌, ◌↔◌, ◌⊎◌, none, some, arith}
use lgtm.Types.{TaskStatus, queued, changes_requested, conflicted}
use lgtm.Tasks.Status.{Tone, status_mark}
use lgtm.Tasks.Triage.{needs_you, bucket_of}
use lgtm.Sidebar.Rows.{review, broken, attention}

-- The mark of a broken task stands behind exactly the tasks that the lists show as broken. Of the
-- tasks under "Needs you" those that await a review have the other mark, which stands nowhere else,
-- and those with a conflict or with changes requested have none.
pub attention-bucket_of :
    (status : TaskStatus)
    → ((attention status ≡ some broken) ↔ ((status_mark status).tone ≡ Tone.broken))
      × ((attention status ≡ some review) → bucket_of status ≡ needs_you)
      × (((bucket_of status ≡ needs_you) × (attention status ≡ none))
          ↔ ((status ≡ conflicted) ⊎ (status ≡ changes_requested)))
unfolding attention bucket_of status_mark
attention-bucket_of queued = ground arith
attention-bucket_of _ = ground arith

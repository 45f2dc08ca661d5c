-- ===== src/Tasks/Composer/Offers.antt =====
-- What a task's page offers (apps/web/src/components/task-composer.tsx) beside the section of the
-- triage page that the task is in (apps/web/src/components/task-triage.tsx).
use lgtm.Prelude.{◌≡◌, ◌≢◌, ◌↔◌, ◌⊎◌, Bool, true, false, arith}
use lgtm.Types.{TaskStatus, rejected, queued}
use lgtm.Tasks.Triage.{needs_you, in_flight, done, did_not_land, bucket_of}
use lgtm.Tasks.Composer.{Panel, retry_panel, nothing, composer, panel_for}

abbrev pub takes_text : Panel → Bool
takes_text (composer respondable _) = respondable
takes_text _ = false

-- The box for a follow-up is open exactly for the tasks under "Needs you"; it stands there closed
-- exactly for those under "In flight"; the panel to retry stands there exactly for
-- those under "Didn't land" that were not rejected; and nothing is offered exactly for the tasks under "Done" and for a rejected one.
pub panel_for-bucket_of :
    (status : TaskStatus)
    → ((takes_text (panel_for status) ≡ true) ↔ (bucket_of status ≡ needs_you))
      × ((panel_for status ≡ composer false false) ↔ (bucket_of status ≡ in_flight))
      × ((panel_for status ≡ retry_panel)
          ↔ ((bucket_of status ≡ did_not_land) × (status ≢ rejected)))
      × ((panel_for status ≡ nothing) ↔ ((bucket_of status ≡ done) ⊎ (status ≡ rejected)))
unfolding panel_for bucket_of
panel_for-bucket_of queued = ground arith
panel_for-bucket_of _ = ground arith

-- ===== src/Tasks/Triage.antt =====
-- apps/web/src/components/task-triage.tsx: the tasks by what a person has to do about them.
pub mod Buckets
pub mod Fold
use lgtm.Prelude.{
  ℕ, ◌-◌, Bool, true, false, ◌||◌, Option, none, some, List, [], ◌∷◌, ◌++◌, Text, text, length,
  keep, take, leb, ltb, decimal, if◌then◌else◌,
}
use lgtm.Types.{Task, TaskStatus, queued, Stats}
use lgtm.Tasks.Status.{Tone, status_mark}

pub data Bucket : Type 0 where
  needs_you in_flight done did_not_land : Bucket

abbrev is_queued : TaskStatus → Bool
is_queued queued = true
is_queued _ = false

abbrev bucket_of_tone : Tone → TaskStatus → Bucket
bucket_of_tone Tone.attention status = needs_you
bucket_of_tone Tone.live status = in_flight
bucket_of_tone Tone.done status = if is_queued status then in_flight else done
bucket_of_tone Tone.idle status = if is_queued status then in_flight else did_not_land
bucket_of_tone Tone.broken status = if is_queued status then in_flight else did_not_land

unfoldable pub bucket_of : TaskStatus → Bucket
unfolding status_mark
bucket_of status = bucket_of_tone (status_mark status).tone status

-- `groups`, one list of tasks to a bucket
pub record Groups : Type 0 where
  pub did_not_land : List Task
  pub done : List Task
  pub in_flight : List Task
  pub needs_you : List Task

abbrev pub no_groups : Groups
no_groups = record { did_not_land = []; done = []; in_flight = []; needs_you = [] }

-- `groups[bucket].push(task)`
unfoldable pub push_task : Bucket → Task → Groups → Groups
push_task needs_you task g = record g { needs_you = g.needs_you ++ task ∷ [] }
push_task in_flight task g = record g { in_flight = g.in_flight ++ task ∷ [] }
push_task done task g = record g { done = g.done ++ task ∷ [] }
push_task did_not_land task g = record g { did_not_land = g.did_not_land ++ task ∷ [] }

unfoldable pub group_from : Groups → List Task → Groups
unfolding push_task
group_from g [] = g
group_from g (task ∷ tasks) = group_from (push_task (bucket_of task.status) task g) tasks

abbrev pub preview : ℕ
preview = 5

-- what one section of the page shows
pub record Section : Type 0 where
  pub count : ℕ
  pub shown : List Task
  pub hidden : ℕ
  -- the label of the fold button, if there is one
  pub button : Option Text

abbrev pub recent_of : ℕ → List Task → List Task
recent_of since tasks = keep (λ task. leb since task.created_at) tasks

-- `all` is the state of the fold button
unfoldable pub section : Bool → ℕ → List Task → Section
section all since tasks =
    let recent = recent_of since tasks in
    let shown = if all then tasks else take preview recent in
    let hidden = length tasks - length shown in
    record {
      count = length recent;
      shown = shown;
      hidden = hidden;
      button =
          if ltb 0 hidden || all
          then some (
              if all
              then text "Show fewer"
              else text "Show "
                ++ decimal hidden
                ++ text " "
                ++ (if ltb (length shown) (length recent) then text "more" else text "older"))
          else none;
    }

-- only outcomes are counted inside the window
unfoldable pub since_of : Bucket → Stats → ℕ
since_of done stats = stats.since
since_of did_not_land stats = stats.since
since_of _ stats = 0

-- ===== src/Tasks/Triage/Buckets.antt =====
-- The groups of apps/web/src/components/task-triage.tsx.
use lgtm.Prelude.{
  ◌≡◌, sym, ◌∙◌, ap, Bool, true, false, List, [], ◌∷◌, ◌++◌, append-nil, append_assoc, keep,
  if◌then◌else◌, arith,
}
use lgtm.Types.{Task}
use lgtm.Tasks.Triage.{
  Bucket, needs_you, in_flight, done, did_not_land, bucket_of, Groups, no_groups, push_task,
  group_from,
}

-- the list of a bucket
abbrev pub group : Bucket → Groups → List Task
group needs_you g = g.needs_you
group in_flight g = g.in_flight
group done g = g.done
group did_not_land g = g.did_not_land

abbrev pub same_bucket : Bucket → Bucket → Bool
same_bucket needs_you needs_you = true
same_bucket in_flight in_flight = true
same_bucket done done = true
same_bucket did_not_land did_not_land = true
same_bucket _ _ = false

abbrev pub belongs : Bucket → Task → Bool
belongs b task = same_bucket b (bucket_of task.status)

group-push_task :
    (b c : Bucket) (task : Task) (g : Groups)
    → group b (push_task c task g) ≡ group b g ++ (if same_bucket b c then task ∷ [] else [])
unfolding push_task
group-push_task b c task g = grind (arith, append-nil)

keep-cons :
    (b : Bucket) (task : Task) (tasks : List Task)
    → (if belongs b task then task ∷ [] else []) ++ keep (belongs b) tasks
      ≡ keep (belongs b) (task ∷ tasks)
keep-cons b task tasks = ground arith

group-group_from :
    (b : Bucket) (g : Groups) (tasks : List Task)
    → group b (group_from g tasks) ≡ group b g ++ keep (belongs b) tasks
unfolding group_from
group-group_from b g [] = sym (append-nil (group b g))
group-group_from b g (task ∷ tasks) =
    group-group_from b (push_task (bucket_of task.status) task g) tasks
    ∙ ap (λ l. l ++ keep (belongs b) tasks) (group-push_task b (bucket_of task.status) task g)
    ∙ append_assoc (group b g) _ (keep (belongs b) tasks)
    ∙ ap (λ l. group b g ++ l) (keep-cons b task tasks)

-- Each section of the triage page lists exactly the tasks whose status falls into its bucket, in
-- the order in which they came.
pub group-keep :
    (b : Bucket) (tasks : List Task) → group b (group_from no_groups tasks) ≡ keep (belongs b) tasks
group-keep needs_you tasks = group-group_from needs_you no_groups tasks
group-keep in_flight tasks = group-group_from in_flight no_groups tasks
group-keep done tasks = group-group_from done no_groups tasks
group-keep did_not_land tasks = group-group_from did_not_land no_groups tasks

-- ===== src/Projects/Grouping.antt =====
-- The map of `groupByProject` (apps/web/src/components/app-sidebar.tsx).
use lgtm.Prelude.{
  ◌≡◌, refl, sym, ap, ◌∙◌, Bool, false, ◌||◌, Option, none, some, List, [], ◌∷◌, ◌++◌, append-nil,
  append_assoc, Text, text_eq, text_eq_iff, keep, if◌then◌else◌, arith, Bool-cases, inl, inr,
}
use lgtm.Types.{Task, Project}
use lgtm.Projects.{
  Entries, set_empty, set_record, push_task, from_records, from_tasks, by_repository,
}

-- the tasks under a key, none if it is missing
abbrev pub bucket : Text → Entries → List Task
bucket r [] = []
bucket r ((key, tasks) ∷ entries) = if text_eq key r then tasks else bucket r entries

abbrev pub has_key : Text → Entries → Bool
has_key r [] = false
has_key r ((key, _) ∷ entries) = text_eq key r || has_key r entries

abbrev pub in_repository : Text → Task → Bool
in_repository r task = text_eq task.spec.repository r

bucket-set_empty :
    (r key : Text) (entries : Entries)
    → bucket r entries ≡ []
    → bucket r (set_empty key entries) ≡ []
unfolding set_empty
bucket-set_empty r key [] h = ground arith
bucket-set_empty r key ((k, tasks) ∷ entries) h = ground (arith, bucket-set_empty r key entries)

bucket-push_task :
    (r : Text) (task : Task) (entries : Entries)
    → bucket r (push_task task entries)
      ≡ bucket r entries ++ (if in_repository r task then task ∷ [] else [])
unfolding push_task
bucket-push_task r task [] = ground arith
bucket-push_task r task ((k, tasks) ∷ entries) = ground (
  arith,
  bucket-push_task r task entries,
  text_eq_iff k task.spec.repository,
  text_eq_iff k r,
  text_eq_iff task.spec.repository r,
  append-nil tasks,
  append-nil (bucket r entries),
)

bucket-set_record :
    (r : Text) (o : Option Text) (entries : Entries)
    → bucket r entries ≡ []
    → bucket r (set_record o entries) ≡ []
bucket-set_record r none entries h = h
bucket-set_record r (some []) entries h = h
bucket-set_record r (some (c ∷ s)) entries h = bucket-set_empty r (c ∷ s) entries h

from_records-bucket :
    (r : Text) (entries : Entries) (records : List Project)
    → bucket r entries ≡ []
    → bucket r (from_records entries records) ≡ []
unfolding from_records
from_records-bucket r entries [] h = h
from_records-bucket r entries (p ∷ records) h =
    from_records-bucket r (set_record p.repository entries) records
      (bucket-set_record r p.repository entries h)

keep-one :
    (r : Text) (task : Task) (tasks : List Task)
    → (if in_repository r task then task ∷ [] else []) ++ keep (in_repository r) tasks
      ≡ keep (in_repository r) (task ∷ tasks)
keep-one r task tasks = elim (Bool-cases (in_repository r task)) [
  | inl inside ↦ rw inside refl
  | inr outside ↦ rw outside refl
]

from_tasks-bucket :
    (r : Text) (entries : Entries) (tasks : List Task)
    → bucket r (from_tasks entries tasks) ≡ bucket r entries ++ keep (in_repository r) tasks
unfolding from_tasks
from_tasks-bucket r entries [] = sym (append-nil (bucket r entries))
from_tasks-bucket r entries (task ∷ tasks) =
    from_tasks-bucket r (push_task task entries) tasks
    ∙ ap (λ l. l ++ keep (in_repository r) tasks) (bucket-push_task r task entries)
    ∙ append_assoc (bucket r entries) (if in_repository r task then task ∷ [] else [])
        (keep (in_repository r) tasks)
    ∙ ap (λ l. bucket r entries ++ l) (keep-one r task tasks)

-- Under each repository the sidebar gathers exactly the tasks of that repository, in the order in
-- which they came, whichever projects are known.
pub by_repository-bucket :
    (r : Text) (tasks : List Task) (records : List Project)
    → bucket r (by_repository tasks records) ≡ keep (in_repository r) tasks
unfolding by_repository
by_repository-bucket r tasks records =
    from_tasks-bucket r (from_records [] records) tasks
    ∙ ap (λ l. l ++ keep (in_repository r) tasks) (from_records-bucket r [] records refl)

-- ===== src/Projects/Order.antt =====
-- The projects that `groupByProject` lists (apps/web/src/components/app-sidebar.tsx).
use lgtm.Prelude.{
  ◌≡◌, refl, sym, ◌∙◌, Bool, true, false, not, ◌&&◌, ◌||◌, Option, none, some, List, [], ◌∷◌, map,
  Text, text_eq, text_eq_iff, text_eq_refl, keep, All, arith,
}
use lgtm.Prelude.Sort.{IsSorted, sort-perm, sort-IsSorted, sort-All}
use mathlib.Core.List.{Perm}
use lgtm.Types.{Task, Project}
use lgtm.Projects.{
  Entries, set_empty, set_record, push_task, from_records, from_tasks, by_repository, Listed,
  listed_of, newer, listed_le, group_by_project,
}
use lgtm.Projects.Grouping.{bucket, has_key, in_repository, by_repository-bucket}

abbrev pub distinct_keys : Entries → Bool
distinct_keys [] = true
distinct_keys ((key, _) ∷ entries) = not (has_key key entries) && distinct_keys entries

pub has_key-set_empty :
    (r key : Text) (entries : Entries)
    → has_key r (set_empty key entries) ≡ (has_key r entries || text_eq key r)
unfolding set_empty
has_key-set_empty r key [] = ground arith
has_key-set_empty r key ((k, _) ∷ entries) =
    ground (arith, has_key-set_empty r key entries, text_eq_iff k key)

pub has_key-push_task :
    (r : Text) (task : Task) (entries : Entries)
    → has_key r (push_task task entries) ≡ (has_key r entries || text_eq task.spec.repository r)
unfolding push_task
has_key-push_task r task [] = ground arith
has_key-push_task r task ((k, _) ∷ entries) =
    ground (arith, has_key-push_task r task entries, text_eq_iff k task.spec.repository)

distinct_keys-set_empty :
    (key : Text) (entries : Entries)
    → distinct_keys entries ≡ true
    → distinct_keys (set_empty key entries) ≡ true
unfolding set_empty
distinct_keys-set_empty key [] h = refl
distinct_keys-set_empty key ((k, _) ∷ entries) h = ground (
  arith,
  distinct_keys-set_empty key entries,
  has_key-set_empty k key entries,
  text_eq_iff key k,
  text_eq_iff k key,
)

distinct_keys-push_task :
    (task : Task) (entries : Entries)
    → distinct_keys entries ≡ true
    → distinct_keys (push_task task entries) ≡ true
unfolding push_task
distinct_keys-push_task task [] h = refl
distinct_keys-push_task task ((k, _) ∷ entries) h = ground (
  arith,
  distinct_keys-push_task task entries,
  has_key-push_task k task entries,
  text_eq_iff task.spec.repository k,
  text_eq_iff k task.spec.repository,
)

distinct_keys-set_record :
    (o : Option Text) (entries : Entries)
    → distinct_keys entries ≡ true
    → distinct_keys (set_record o entries) ≡ true
distinct_keys-set_record none entries h = h
distinct_keys-set_record (some []) entries h = h
distinct_keys-set_record (some (c ∷ s)) entries h = distinct_keys-set_empty (c ∷ s) entries h

from_records-distinct_keys :
    (entries : Entries) (records : List Project)
    → distinct_keys entries ≡ true
    → distinct_keys (from_records entries records) ≡ true
unfolding from_records
from_records-distinct_keys entries [] h = h
from_records-distinct_keys entries (p ∷ records) h =
    from_records-distinct_keys (set_record p.repository entries) records
      (distinct_keys-set_record p.repository entries h)

from_tasks-distinct_keys :
    (entries : Entries) (tasks : List Task)
    → distinct_keys entries ≡ true
    → distinct_keys (from_tasks entries tasks) ≡ true
unfolding from_tasks
from_tasks-distinct_keys entries [] h = h
from_tasks-distinct_keys entries (task ∷ tasks) h =
    from_tasks-distinct_keys (push_task task entries) tasks (distinct_keys-push_task task entries h)

pub by_repository-distinct_keys :
    (tasks : List Task) (records : List Project)
    → distinct_keys (by_repository tasks records) ≡ true
unfolding by_repository
by_repository-distinct_keys tasks records =
    from_tasks-distinct_keys (from_records [] records) tasks
      (from_records-distinct_keys [] records refl)

-- an entry holds what its key finds
abbrev Owns : Entries → Text × List Task → Type 0
Owns entries (key, tasks) = bucket key entries ≡ tasks

Owns-cons :
    (k : Text) (ts : List Task) (entries part : Entries)
    → has_key k part ≡ false
    → All (Owns entries) part
    → All (Owns ((k, ts) ∷ entries)) part
Owns-cons k ts entries [] h all = tt
Owns-cons k ts entries ((key, tasks) ∷ part) h all = (
  ground (arith, all.0, text_eq_iff k key, text_eq_iff key k),
  Owns-cons k ts entries part (ground arith) all.1,
)

distinct_keys-Owns : (entries : Entries) → distinct_keys entries ≡ true → All (Owns entries) entries
distinct_keys-Owns [] h = tt
distinct_keys-Owns ((k, ts) ∷ entries) h = (
  ground (arith, text_eq_refl k),
  Owns-cons k ts entries entries (ground arith) (distinct_keys-Owns entries (ground arith)),
)

newer_total : (a b : Task) → newer a b ≡ false → newer b a ≡ true
newer_total a b h = ground arith

newer_trans : (a b c : Task) → newer a b ≡ true → newer b c ≡ true → newer a c ≡ true
newer_trans a b c h k = ground arith

-- a project has the tasks of its repository, the newest first
pub record IsListed (tasks : List Task) (p : Listed) : Type 0 where
  pub newest_first : IsSorted newer p.tasks
  pub complete : Perm p.tasks (keep (in_repository p.repository) tasks)

listed_of-IsListed :
    (tasks : List Task) (records : List Project) (part : Entries)
    → All (Owns (by_repository tasks records)) part
    → All (IsListed tasks) (map listed_of part)
unfolding listed_of
listed_of-IsListed tasks records [] h = tt
listed_of-IsListed tasks records ((key, ts) ∷ part) h = (
  record {
    newest_first = sort-IsSorted newer newer_total newer_trans ts;
    complete = rw ((sym (by_repository-bucket key tasks records) ∙ h.0)) (sort-perm newer ts);
  },
  listed_of-IsListed tasks records part h.1,
)

module _ (name_le : Text → Text → Bool)
    (total : (a b : Text) → name_le a b ≡ false → name_le b a ≡ true)
    (transitive : (a b c : Text)
      → name_le a b ≡ true
      → name_le b c ≡ true
      → name_le a c ≡ true) where
  listed_le_total : (a b : Listed) → listed_le name_le a b ≡ false → listed_le name_le b a ≡ true
  listed_le_total a b h = ground (arith, total a.name b.name)

  listed_le_trans :
      (a b c : Listed)
      → listed_le name_le a b ≡ true
      → listed_le name_le b c ≡ true
      → listed_le name_le a c ≡ true
  listed_le_trans a b c h k = ground (arith, transitive a.name b.name c.name)

  -- Given an order of names that is total and transitive, the sidebar lists the projects by their
  -- newest task, then by name, and each project holds exactly the tasks of its repository, the
  -- newest first.
  pub group_by_project-IsListed :
      (tasks : List Task) (records : List Project)
      → All (IsListed tasks) (group_by_project name_le tasks records)
        × IsSorted (listed_le name_le) (group_by_project name_le tasks records)
  unfolding group_by_project
  group_by_project-IsListed tasks records =
      let entries = by_repository tasks records in
      let owned = distinct_keys-Owns entries (by_repository-distinct_keys tasks records) in
      (
        sort-All (listed_le name_le) (IsListed tasks) (map listed_of entries)
            (listed_of-IsListed tasks records entries owned),
        sort-IsSorted (listed_le name_le) listed_le_total listed_le_trans (map listed_of entries),
      )

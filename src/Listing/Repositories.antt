-- ===== src/Listing/Repositories.antt =====
-- `groupByRepository` of apps/web/src/routes/memories.tsx.
use lgtm.Prelude.{
  ℕ, ◌≡◌, ◌↔◌, refl, Bool, true, false, ◌&&◌, ◌||◌, Option, none, some, List, [], ◌∷◌, map, Text,
  text, text_eq, text_eq_iff, is_empty, keep, All, leb, ltb, ◌==◌, arith, if◌then◌else◌,
}
use lgtm.Prelude.Sort.{sort, IsSorted, sort-perm, sort-IsSorted, sort-All}
use lgtm.Prelude.Groups.{push_all, under, Gathers, push_all-Gathers}
use mathlib.Core.List.{Perm}
use lgtm.Types.{Memory}
use lgtm.Projects.{project_name}

-- whether two keys of the map are the same
abbrev pub same_repository : Option Text → Option Text → Bool
same_repository none none = true
same_repository (some r) (some s) = text_eq r s
same_repository _ _ = false

same_repository_iff : (j k : Option Text) → (same_repository j k ≡ true) ↔ (j ≡ k)
same_repository_iff none none = ground arith
same_repository_iff none (some s) = ground arith
same_repository_iff (some r) none = ground arith
same_repository_iff (some r) (some s) = ground (arith, text_eq_iff r s)

pub record Group (A : Type 0) : Type 0 where
  pub items : List A
  pub key : Text
  pub label : Text

-- `repository ?? ""`
abbrev pub key_of : Option Text → Text
key_of none = []
key_of (some r) = r

abbrev pub label_of : Option Text → Text
label_of none = text "Every repository"
label_of (some r) = project_name r

-- `Number(!!key)`
abbrev pub has_key : Text → ℕ
has_key key = if is_empty key then 0 else 1

-- `le a b`: `compare(a, b)` is not positive; `label_le a b`: `a.localeCompare(b)` is not
module _ {A : Type 0} (repository : A → Option Text) (le : A → A → Bool)
    (label_le : Text → Text → Bool) where
  unfoldable pub group_of : Option Text × List A → Group A
  group_of (r, items) = record { items = sort le items; key = key_of r; label = label_of r }

  abbrev pub group_le : Group A → Group A → Bool
  group_le a b =
      ltb (has_key a.key) (has_key b.key)
      || (has_key a.key == has_key b.key && label_le a.label b.label)

  unfoldable pub group_by_repository : List A → List (Group A)
  unfolding group_of
  group_by_repository items =
      sort group_le (map group_of (push_all same_repository repository [] items))

  -- a group has all the items of its repository, in the order of the page
  pub record IsGroup (items : List A) (g : Group A) : Type 0 where
    pub of : Option Text
    pub keyed : g.key ≡ key_of of
    pub labelled : g.label ≡ label_of of
    pub ordered : IsSorted le g.items
    pub complete : Perm g.items (keep (under same_repository repository of) items)

  module _ (total : (a b : A) → le a b ≡ false → le b a ≡ true)
      (transitive : (a b c : A) → le a b ≡ true → le b c ≡ true → le a c ≡ true) where
    group_of-IsGroup :
        (items : List A) (part : List (Option Text × List A))
        → All (Gathers same_repository repository same_repository_iff items) part
        → All (IsGroup items) (map group_of part)
    unfolding group_of
    group_of-IsGroup items [] h = tt
    group_of-IsGroup items ((r, list) ∷ part) h = (
      record {
        of = r;
        keyed = refl;
        labelled = refl;
        ordered = sort-IsSorted le total transitive list;
        complete = rw (h.0) (sort-perm le _);
      },
      group_of-IsGroup items part h.1,
    )

    module _ (label_total : (a b : Text) → label_le a b ≡ false → label_le b a ≡ true)
        (label_transitive : (a b c : Text)
          → label_le a b ≡ true
          → label_le b c ≡ true
          → label_le a c ≡ true) where
      group_le-total : (a b : Group A) → group_le a b ≡ false → group_le b a ≡ true
      group_le-total a b h = ground (arith, label_total a.label b.label)

      group_le_trans :
          (a b c : Group A) → group_le a b ≡ true → group_le b c ≡ true → group_le a c ≡ true
      group_le_trans a b c h k = ground (arith, label_transitive a.label b.label c.label)

      -- Given orders of the items and of the labels that are total and transitive, each group has
      -- exactly the items of one repository, or of none, in the order of the page; the groups
      -- without a repository come first, and the others by their labels.
      pub group_by_repository-IsGroup :
          (items : List A)
          → All (IsGroup items) (group_by_repository items)
            × IsSorted group_le (group_by_repository items)
      unfolding group_by_repository
      group_by_repository-IsGroup items =
          let entries = push_all same_repository repository [] items in
          (
            sort-All group_le (IsGroup items) (map group_of entries) (
                group_of-IsGroup items entries
                  (push_all-Gathers same_repository repository same_repository_iff items)),
            sort-IsSorted group_le group_le-total group_le_trans (map group_of entries),
          )

-- the order of the page for memories: `b.created_at - a.created_at` is not positive
abbrev pub newer_memory : Memory → Memory → Bool
newer_memory a b = leb b.created_at a.created_at

-- ===== src/Listing/Scratchpads/Sections.antt =====
-- Every scratchpad has its place on the page (apps/web/src/routes/scratchpads.tsx).
use lgtm.Prelude.{
  ◌+◌, ◌≡◌, Bool, true, not, Option, none, some, List, [], ◌∷◌, ◌++◌, map, Text, length, take, All,
  ◌≤◌, min, keep, arith, Bool-cases, inl, inr,
}
use lgtm.Prelude.Sort.{IsSorted, sort-perm, sort-IsSorted, sort-All}
use lgtm.Prelude.Groups.{push_all}
use lgtm.Prelude.Groups.Whole.{
  all_items, all_items-sort, entry_items, all_items-push_all, length-perm,
}
use mathlib.Core.List.{Perm, perm_middle}
use mathlib.Core.List.Perm
use lgtm.Types.{Scratchpad}
use lgtm.Listing.Repositories.{Group, group_of, group_by_repository, group_le, same_repository}
use lgtm.Listing.Scratchpads.{later_edited, live, sections, row_tags}

abbrev pub group_items : {A : Type 0} → Group A → List A
group_items g = g.items

module _ {A : Type 0} (repository : A → Option Text) (le : A → A → Bool)
    (label_le : Text → Text → Bool) where
  groups-items :
      (entries : List (Option Text × List A))
      → Perm
          (all_items group_items (map (group_of repository le label_le) entries))
          (all_items entry_items entries)
  unfolding group_of
  groups-items [] = Perm.refl _
  groups-items ((r, items) ∷ entries) = Perm.append (sort-perm le items) (groups-items entries)

  -- Taken together, the groups of a page have every record once.
  pub group_by_repository-whole :
      (items : List A)
      → Perm (all_items group_items (group_by_repository repository le label_le items)) items
  unfolding group_by_repository
  group_by_repository-whole items =
      let entries = push_all same_repository repository [] items in
      Perm.trans
        (all_items-sort group_items (group_le repository le label_le)
          (map (group_of repository le label_le) entries))
        (Perm.trans (groups-items entries) (all_items-push_all same_repository repository [] items))

keep-split :
    {A : Type 0} (p : A → Bool) (xs : List A) → Perm (keep (λ a. not (p a)) xs ++ keep p xs) xs
keep-split p [] = Perm.refl _
keep-split p (x ∷ xs) = elim (Bool-cases (p x)) [
  | inl e ↦ rw e (
      Perm.trans (perm_middle (keep (λ a. not (p a)) xs) (keep p xs))
        (Perm.cons x (keep-split p xs)))
  | inr e ↦ rw e (Perm.cons x (keep-split p xs))
]

keep-All : {A : Type 0} (p : A → Bool) (xs : List A) → All (λ a. p a ≡ true) (keep p xs)
keep-All p [] = tt
keep-All p (x ∷ xs) = elim (Bool-cases (p x)) [
  | inl e ↦ rw e (e, keep-All p xs)
  | inr e ↦ rw e (keep-All p xs)
]

length-take : (tags : List Text) → length (take 3 tags) ≡ min 3 (length tags)
length-take [] = ground arith
length-take (a ∷ []) = ground arith
length-take (a ∷ b ∷ []) = ground arith
length-take (a ∷ b ∷ c ∷ tags) = ground arith

-- Whatever the order of the labels is: the groups of the page and its archived section, taken
-- together, have every scratchpad once; the archived section has only archived ones, the one
-- edited last first; and the count beside the heading is that of the groups' scratchpads.
pub sections-whole :
    (label_le : Text → Text → Bool) (scratchpads : List Scratchpad)
    → let page = sections label_le scratchpads in
      Perm (all_items group_items page.groups ++ page.archived) scratchpads
      × IsSorted later_edited page.archived
      × All (λ pad. pad.archived ≡ true) page.archived
      × (length (all_items group_items page.groups) ≡ page.meta)
unfolding sections
sections-whole label_le scratchpads =
    let whole =
      group_by_repository-whole (λ pad. pad.repository) later_edited label_le (live scratchpads) in
    (
      Perm.trans
          (Perm.append whole (sort-perm later_edited (keep (λ pad. pad.archived) scratchpads)))
          (keep-split (λ pad. pad.archived) scratchpads),
      sort-IsSorted later_edited (λ a b h. ground arith) (λ a b c h k. ground arith) _,
      sort-All later_edited (λ pad. pad.archived ≡ true) _
          (keep-All (λ pad. pad.archived) scratchpads),
      length-perm whole,
    )

-- A row shows at most three tags, and the count beside them is that of the tags that it leaves out.
pub row_tags-counts :
    (tags : List Text)
    → let (shown, rest) = row_tags tags in
      (length shown + elim rest [ none ↦ 0 | some n ↦ n ] ≡ length tags) × (length shown ≤ 3)
unfolding row_tags
row_tags-counts tags = ground (arith, length-take tags)

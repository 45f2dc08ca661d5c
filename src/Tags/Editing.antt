-- ===== src/Tags/Editing.antt =====
-- Adding a tag and taking it off again (apps/web/src/components/tags-row.tsx).
use lgtm.Prelude.{
  ◌≡◌, ◌≢◌, refl, Bool, true, false, not, ◌&&◌, ◌||◌, some, List, [], ◌∷◌, ◌++◌, Text, text_eq,
  text_eq_iff, text_eq_refl, trim, keep, keep-append, append-nil, arith,
}
use lgtm.Tags.{Change, has_tag, commit, remove}

-- whether a tag stands twice in the row
abbrev pub distinct : List Text → Bool
distinct [] = true
distinct (tag ∷ tags) = not (has_tag tag tags) && distinct tags

keep-absent :
    (tag : Text) (tags : List Text)
    → has_tag tag tags ≡ false
    → keep (λ other. not (text_eq other tag)) tags ≡ tags
keep-absent tag [] h = refl
keep-absent tag (t ∷ tags) h = ground (arith, keep-absent tag tags)

has_tag-append :
    (t tag : Text) (tags : List Text)
    → has_tag t (tags ++ tag ∷ []) ≡ (has_tag t tags || text_eq tag t)
has_tag-append t tag [] = ground arith
has_tag-append t tag (u ∷ tags) = ground (arith, has_tag-append t tag tags)

distinct-append :
    (tag : Text) (tags : List Text)
    → has_tag tag tags ≡ false
    → distinct tags ≡ true
    → distinct (tags ++ tag ∷ []) ≡ true
distinct-append tag [] h d = refl
distinct-append tag (t ∷ tags) h d = ground (
  arith,
  distinct-append tag tags,
  has_tag-append t tag tags,
  text_eq_iff tag t,
  text_eq_iff t tag,
)

-- If Enter adds a tag to tags that differ, the tag is not empty, the tags still differ, and the
-- cross on the new tag gives back the tags as they were.
pub remove-commit :
    (tags : List Text) (draft : Text) (change : Change)
    → distinct tags ≡ true
    → commit tags (some draft) ≡ some change
    → (trim draft ≢ [])
      × (distinct change.tags ≡ true)
      × ((remove (trim draft) change.tags).tags ≡ tags)
unfolding commit remove
remove-commit tags draft change d e =
    let tag = trim draft in
    ground (
      arith,
      e,
      d,
      keep-append (λ other. not (text_eq other tag)) tags (tag ∷ []),
      keep-absent tag tags,
      distinct-append tag tags,
      text_eq_refl tag,
      append-nil tags,
    )

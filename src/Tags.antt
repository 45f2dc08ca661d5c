-- ===== src/Tags.antt =====
-- apps/web/src/components/tags-row.tsx: editing the tags of a document or a todo, and how many of
-- them fit into the row.
pub mod Editing
pub mod Fitting
pub mod Row
mod Tests
use lgtm.Prelude.{
  ℕ, zero, suc, Bool, not, ◌&&◌, Option, none, some, List, [], ◌∷◌, ◌++◌, Text, text, text_eq, trim,
  is_empty, any, keep, ltb, take, if◌then◌else◌,
}

-- what `onChange` is called with
pub record Change : Type 0 where
  pub tags : List Text
  pub message : Text

abbrev pub has_tag : Text → List Text → Bool
has_tag tag tags = any (λ other. text_eq other tag) tags

abbrev or_empty : Option Text → Text
or_empty none = []
or_empty (some s) = s

-- Enter in the field with a draft; the field is closed whatever it held
unfoldable pub commit : List Text → Option Text → Option Change
commit tags draft =
    let tag = trim (or_empty draft) in
    if not (is_empty tag) && not (has_tag tag tags)
    then some (record { tags = tags ++ tag ∷ []; message = text "Tag added" })
    else none

-- the cross on a tag
unfoldable pub remove : Text → List Text → Change
remove tag tags = record {
  tags = keep (λ other. not (text_eq other tag)) tags;
  message = text "Tag removed";
}

abbrev pub max_rows : ℕ
max_rows = 2

-- The layout effect, run until `fitting` is false. `rows` measures: in how many rows the chips and
-- the controls stand when so many chips are shown.
module _ (rows : ℕ → ℕ) where
  unfoldable pub fit : ℕ → ℕ
  fit zero = zero
  fit (suc shown) =
      let fewer = fit shown in if ltb max_rows (rows (suc shown)) then fewer else suc shown

-- the chips of the row
unfoldable pub visible : Bool → ℕ → List Text → List Text
visible expanded shown tags = if expanded then tags else take shown tags

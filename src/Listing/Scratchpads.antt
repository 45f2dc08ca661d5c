-- ===== src/Listing/Scratchpads.antt =====
-- The sections of the page of the scratchpads and its rows
-- (apps/web/src/routes/scratchpads.tsx): the groups of the live ones, and the archived ones.
pub mod Sections
use lgtm.Prelude.{
  ℕ, ◌-◌, Bool, not, Option, none, some, List, Text, length, take, keep, leb, ltb, if◌then◌else◌,
}
use lgtm.Prelude.Sort.{sort}
use lgtm.Types.{Scratchpad}
use lgtm.Listing.Repositories.{Group, group_by_repository}

-- `byEdited(a, b)` is not positive
abbrev pub later_edited : Scratchpad → Scratchpad → Bool
later_edited a b = leb b.updated_at a.updated_at

pub record PageSections : Type 0 where
  pub groups : List (Group Scratchpad)
  pub archived : List Scratchpad
  -- the count beside the heading
  pub meta : ℕ

abbrev pub live : List Scratchpad → List Scratchpad
live scratchpads = keep (λ pad. not pad.archived) scratchpads

-- `label_le a b`: `a.localeCompare(b)` is not positive
module _ (label_le : Text → Text → Bool) where
  unfoldable pub sections : List Scratchpad → PageSections
  sections scratchpads = record {
    groups =
        group_by_repository (λ (pad : Scratchpad). pad.repository) later_edited label_le
          (live scratchpads);
    archived = sort later_edited (keep (λ pad. pad.archived) scratchpads);
    meta = length (live scratchpads);
  }

abbrev pub tags_shown : ℕ
tags_shown = 3

-- the tags of a row, and the count of the rest if there are more
unfoldable pub row_tags : List Text → List Text × Option ℕ
row_tags tags = (
  take tags_shown tags,
  if ltb tags_shown (length tags) then some (length tags - tags_shown) else none,
)

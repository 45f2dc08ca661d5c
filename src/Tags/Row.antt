-- ===== src/Tags/Row.antt =====
-- The row of tags over its life (apps/web/src/components/tags-row.tsx): the field for a new tag, the
-- folding of the chips by layout effects, and the observer of the row's width. `rows` measures in
-- how many rows the chips and the controls of a rendering stand.
pub mod Settled
use lgtm.Prelude.{
  ℕ, zero, suc, ◌-◌, Bool, true, false, not, ◌&&◌, Option, none, some, List, [], ◌∷◌, ◌++◌, Text,
  length, ltb, ◌==◌, if◌then◌else◌,
}
use lgtm.Tags.{Change, commit, remove, max_rows, visible}

pub record TagsRow : Type 0 where
  pub tags : List Text
  pub disabled : Bool
  -- the text in the field, if it is open
  pub draft : Option Text
  pub expanded : Bool
  pub shown : ℕ
  pub fitting : Bool
  pub width : ℕ
  -- what `onChange` was called with
  pub changes : List Change

unfoldable pub mounted : List Text → ℕ → TagsRow
mounted tags width = record {
  tags = tags;
  disabled = false;
  draft = none;
  expanded = false;
  shown = length tags;
  fitting = true;
  width = width;
  changes = [];
}

pub data RowEvent : Type 0 where
  -- the row is rendered with another array of tags
  given : List Text → RowEvent
  -- the row is rendered with `disabled` as it is then
  disabled_as : Bool → RowEvent
  resized : ℕ → RowEvent
  -- the layout effect of a rendering
  laid_out : RowEvent
  opened entered escaped blurred : RowEvent
  typed : Text → RowEvent
  toggled : RowEvent
  crossed : Text → RowEvent

abbrev with_change : Option Change → TagsRow → TagsRow
with_change none s = s
with_change (some change) s = record s { changes = s.changes ++ change ∷ [] }

unfoldable pub remeasure : TagsRow → TagsRow
remeasure s = record s { shown = length s.tags; fitting = true }

-- what the layout of a rendering depends on
pub record Rendering : Type 0 where
  pub shown_tags : List Text
  -- how many tags the button counts that unfolds the row
  pub folded : ℕ
  pub is_expanded : Bool
  pub field : Option Text
  pub row_width : ℕ

-- the chips on the screen
unfoldable pub chips : TagsRow → List Text
unfolding visible
chips s = visible (s.expanded && not s.fitting) s.shown s.tags

unfoldable pub rendering : TagsRow → Rendering
unfolding chips
rendering s = record {
  shown_tags = chips s;
  folded = length s.tags - s.shown;
  is_expanded = s.expanded;
  field = s.draft;
  row_width = s.width;
}

module _ (rows : Rendering → ℕ) where
  -- the first layout effect
  unfoldable pub lay_out : TagsRow → TagsRow
  unfolding rendering
  lay_out s =
      if not s.fitting
      then s
      else if ltb max_rows (rows (rendering s)) && ltb 0 s.shown
      then record s { shown = s.shown - 1 }
      else record s { fitting = false }

  unfoldable pub step : RowEvent → TagsRow → TagsRow
  unfolding remeasure lay_out commit remove
  step (given tags) s = remeasure (record s { tags = tags })
  step (resized width) s = if width == s.width then s else remeasure (record s { width = width })
  step laid_out s = lay_out s
  step (disabled_as disabled) s = record s { disabled = disabled }
  step opened s = if s.disabled then s else record s { draft = some [] }
  step entered s = with_change (commit s.tags s.draft) (record s { draft = none })
  step escaped s = record s { draft = none }
  step blurred s = record s { draft = none }
  step (typed text) s = record s { draft = some text }
  step toggled s = record s { expanded = not s.expanded }
  step (crossed tag) s = if s.disabled then s else with_change (some (remove tag s.tags)) s

  unfoldable pub run : List RowEvent → TagsRow → TagsRow
  unfolding step
  run [] s = s
  run (e ∷ es) s = run es (step e s)

  -- so many renderings, each with its layout effect
  unfoldable pub lay_out_times : ℕ → TagsRow → TagsRow
  unfolding lay_out
  lay_out_times zero s = s
  lay_out_times (suc n) s = lay_out_times n (lay_out s)

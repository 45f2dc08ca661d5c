-- ===== src/Tags/Tests.antt =====
-- A tag that is added, and a row that folds (apps/web/src/components/tags-row.tsx).
use lgtm.Prelude.{
  length, ℕ, ◌<◌, ◌≤◌, ◌≡◌, ◌⊎◌, none, false, refl, some, List, [], ◌∷◌, Text, text, trim, trim_end,
  trim_start, is_space, text_eq, arith,
}
use lgtm.Tags.{Change, commit, fit, visible, max_rows}
use lgtm.Tags.Row.{
  TagsRow, Rendering, rendering, mounted, opened, typed, entered, given, laid_out, toggled,
  remeasure, lay_out, step, run, chips, lay_out_times,
}
use lgtm.Tags.Row.Settled.{lay_out_times-IsSettled}

abbrev tags : List Text
tags = (b'a' ∷ []) ∷ []

abbrev draft : Text
draft = b' ' ∷ b'b' ∷ []

abbrev added : Change
added = record { tags = (b'a' ∷ []) ∷ (b'b' ∷ []) ∷ []; message = text "Tag added" }

tags-commit : commit tags (some draft) ≡ some added
unfolding commit trim trim_end trim_start is_space text_eq
tags-commit = refl

-- one row for each chip
abbrev stacked : ℕ → ℕ
stacked n = n

fit-five : fit stacked 5 < 3
unfolding fit
fit-five = omega arith

-- a tag is added, and the five tags that are given after it fold to two
abbrev five_tags : List Text
five_tags = text "a" ∷ text "b" ∷ text "c" ∷ text "d" ∷ text "e" ∷ []

-- each chip in a row of its own
abbrev in_one_column : Rendering → ℕ
in_one_column r = length r.shown_tags

abbrev later : TagsRow
later =
    run in_one_column
      (opened
        ∷ typed draft
        ∷ entered
        ∷ given five_tags
        ∷ laid_out
        ∷ laid_out
        ∷ laid_out
        ∷ laid_out
        ∷ laid_out
        ∷ [])
      (mounted tags 300)

later-changes : later.changes ≡ added ∷ []
unfolding run step remeasure lay_out rendering chips visible mounted commit trim trim_end trim_start
    is_space text_eq
later-changes = refl

later-chips : chips later ≡ text "a" ∷ text "b" ∷ []
unfolding run step remeasure lay_out rendering chips visible mounted commit trim trim_end trim_start
    is_space text_eq
later-chips = refl

toggled-chips : chips (step in_one_column toggled later) ≡ five_tags
unfolding run step remeasure lay_out rendering chips visible mounted commit trim trim_end trim_start
    is_space text_eq
toggled-chips = refl

abbrev unfolded_row : TagsRow
unfolded_row = record {
  tags = five_tags;
  disabled = false;
  draft = none;
  expanded = false;
  shown = 5;
  fitting = false;
  width = 300;
  changes = [];
}

lay_out_times-IsSettled_example :
    let at_rest = lay_out_times in_one_column 6 (remeasure unfolded_row) in
    (at_rest ≡ record unfolded_row { shown = at_rest.shown; fitting = false })
    × (at_rest.shown ≤ 5)
    × ((at_rest.shown ≡ 0) ⊎ (in_one_column (rendering at_rest) ≤ max_rows))
lay_out_times-IsSettled_example = lay_out_times-IsSettled in_one_column unfolded_row refl

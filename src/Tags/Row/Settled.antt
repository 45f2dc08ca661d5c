-- ===== src/Tags/Row/Settled.antt =====
-- How the folding of the tags comes to rest (apps/web/src/components/tags-row.tsx).
use lgtm.Prelude.{
  ◌⊎◌, ℕ, zero, suc, ◌-◌, ◌≤◌, ◌≡◌, refl, ◌∙◌, ap, true, false, List, [], ◌∷◌, length, ltb,
  Bool-cases, inl, inr, arith, Option-cases,
}
use lgtm.Tags.{commit, max_rows, fit}
use lgtm.Tags.Fitting.{fit-fits}
use lgtm.Tags.Row.{
  TagsRow, RowEvent, given, disabled_as, resized, laid_out, opened, entered, escaped, blurred,
  typed, toggled, crossed, remeasure, Rendering, rendering, chips, lay_out, step, run,
  lay_out_times,
}

module _ (rows : Rendering → ℕ) where
  -- no more chips are shown than there are tags
  abbrev IsWithin : TagsRow → Type 0
  IsWithin s = s.shown ≤ length s.tags

  step-IsWithin : (e : RowEvent) (s : TagsRow) → IsWithin s → IsWithin (step rows e s)
  unfolding step remeasure lay_out
  step-IsWithin (given tags) s h = omega arith
  step-IsWithin (resized width) s h = ground (arith, h)
  step-IsWithin laid_out s h = ground (arith, h)
  step-IsWithin (disabled_as disabled) s h = h
  step-IsWithin opened s h = ground (arith, h)
  step-IsWithin entered s h = elim (Option-cases (commit s.tags s.draft)) [
    | inl e ↦ ground (arith, h, e)
    | inr (c, e) ↦ ground (arith, h, e)
  ]
  step-IsWithin escaped s h = h
  step-IsWithin blurred s h = h
  step-IsWithin (typed text) s h = h
  step-IsWithin toggled s h = h
  step-IsWithin (crossed tag) s h = ground (arith, h)

  run-IsWithin : (es : List RowEvent) (s : TagsRow) → IsWithin s → IsWithin (run rows es s)
  unfolding run
  run-IsWithin [] s h = h
  run-IsWithin (e ∷ es) s h = run-IsWithin es (step rows e s) (step-IsWithin e s h)

  -- a row at rest stays as it is
  lay_out_times-rest : (n : ℕ) (s : TagsRow) → s.fitting ≡ false → lay_out_times rows n s ≡ s
  unfolding lay_out_times lay_out
  lay_out_times-rest zero s h = refl
  lay_out_times-rest (suc n) s h =
      let same : lay_out rows s ≡ s = rw (h) refl in
      ap (lay_out_times rows n) same ∙ lay_out_times-rest n s h

  -- the row as it is folded to so many chips, and still tried
  abbrev folded_to : TagsRow → ℕ → TagsRow
  folded_to s n = record s { shown = n; fitting = true }

  -- the row as it comes to rest with so many chips
  abbrev rested_at : TagsRow → ℕ → TagsRow
  rested_at s n = record s { shown = n; fitting = false }

  abbrev rows_of : TagsRow → ℕ → ℕ
  rows_of s n = rows (rendering (folded_to s n))

  lay_out-cut :
      (s : TagsRow) (n : ℕ)
      → ltb max_rows (rows_of s (suc n)) ≡ true
      → lay_out rows (folded_to s (suc n)) ≡ folded_to s n
  unfolding lay_out
  lay_out-cut s n cut =
      let more : ltb 0 (suc n) ≡ true = ground arith in
      let less : suc n - 1 ≡ n = omega arith in rw (cut, more, less) refl

  lay_out-kept :
      (s : TagsRow) (n : ℕ)
      → ltb max_rows (rows_of s n) ≡ false
      → lay_out rows (folded_to s n) ≡ rested_at s n
  unfolding lay_out
  lay_out-kept s n kept = rw (kept) refl

  lay_out-bare : (s : TagsRow) → lay_out rows (folded_to s 0) ≡ rested_at s 0
  unfolding lay_out
  lay_out-bare s = elim (Bool-cases (ltb max_rows (rows_of s 0))) [
    | inl e ↦ rw (e) refl
    | inr e ↦ rw (e) refl
  ]

  lay_out_times-fit :
      (s : TagsRow) (n : ℕ)
      → lay_out_times rows (suc n) (folded_to s n) ≡ rested_at s (fit (rows_of s) n)
  unfolding lay_out_times fit
  lay_out_times-fit s zero = lay_out-bare s
  lay_out_times-fit s (suc n) = elim (Bool-cases (ltb max_rows (rows_of s (suc n)))) [
    | inl cut ↦
        ap (lay_out_times rows (suc n)) (lay_out-cut s n cut) ∙ (rw (cut) (lay_out_times-fit s n))
    | inr kept ↦
        ap (lay_out_times rows (suc n)) (lay_out-kept s (suc n) kept)
        ∙ lay_out_times-rest (suc n) (rested_at s (suc n)) refl
        ∙ (rw (kept) refl)
  ]

  -- a row that is not expanded is drawn at rest as it was tried
  rendering-rested :
      (s : TagsRow) (n : ℕ)
      → s.expanded ≡ false
      → rendering (rested_at s n) ≡ rendering (folded_to s n)
  unfolding rendering chips
  rendering-rested s n h = rw (h) refl

  -- A row that is not expanded and is measured again is at rest after one rendering more than it has
  -- tags: with no more chips than there are tags, and what is then drawn stands in two rows, unless
  -- no chip is shown.
  pub lay_out_times-IsSettled :
      (s : TagsRow)
      → s.expanded ≡ false
      → let at_rest = lay_out_times rows (suc (length s.tags)) (remeasure s) in
        (at_rest ≡ rested_at s at_rest.shown)
        × (at_rest.shown ≤ length s.tags)
        × ((at_rest.shown ≡ 0) ⊎ (rows (rendering at_rest) ≤ max_rows))
  unfolding remeasure
  lay_out_times-IsSettled s folded =
      let (within, in_rows) = fit-fits (rows_of s) (length s.tags) in
      let drawn = ap rows (rendering-rested s (fit (rows_of s) (length s.tags)) folded) in
      rw (lay_out_times-fit s (length s.tags)) (refl, within, rw (drawn) in_rows)

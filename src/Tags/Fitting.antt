-- ===== src/Tags/Fitting.antt =====
-- The loop of layout effects of apps/web/src/components/tags-row.tsx.
use lgtm.Prelude.{ℕ, zero, suc, ◌≤◌, ◌<◌, ◌≡◌, ◌⊎◌, inl, refl, arith}
use lgtm.Tags.{max_rows, fit}

module _ (rows : ℕ → ℕ) where
  -- As many chips as are shown when the loop ends fit into two rows, unless none is shown, and
  -- they are no more than the tags.
  pub fit-fits : (n : ℕ) → (fit rows n ≤ n) × ((fit rows n ≡ 0) ⊎ (rows (fit rows n) ≤ max_rows))
  unfolding fit
  fit-fits zero = (omega arith, inl refl)
  fit-fits (suc n) = ground (arith, fit-fits n)

  -- No larger number of chips fits.
  pub fit-most : (n k : ℕ) → fit rows n < k → k ≤ n → max_rows < rows k
  unfolding fit
  fit-most zero k more le = omega arith
  fit-most (suc n) k more le = ground (arith, fit-most n k)

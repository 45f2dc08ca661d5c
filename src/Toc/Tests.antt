-- ===== src/Toc/Tests.antt =====
-- An outline of three headings (apps/web/src/components/editor-toc.tsx).
use lgtm.Prelude.{ℕ, ◌-◌, ◌≡◌, refl, List, [], ◌∷◌, length, keep, max, leb, ltb, arith}
use lgtm.Toc.{Range, update}
use lgtm.Toc.Visible.{update-counts}

-- tops at 10, 90 and 400 with the reading line at 96 and the bottom edge at 500
abbrev tops : List ℕ
tops = 10 ∷ 90 ∷ 400 ∷ []

abbrev start : Range
start = record { first = 0; last = 0 }

update-counts_example :
    let r = update leb ltb 96 500 tops start in
    (r.first ≡ length (keep (λ top. leb top 96) tops) - 1)
    × (r.last ≡ max r.first (length (keep (λ top. ltb top 500) tops) - 1))
update-counts_example =
    update-counts leb ltb 96 500 tops start ((λ _. refl), ((λ _. refl), ((λ h. cc), tt)))
      ((λ _. refl), ((λ _. refl), ((λ h. cc), tt))) (omega arith)

-- ===== src/Toc/Depths.antt =====
-- The depths of the outline (apps/web/src/components/editor-toc.tsx).
use mathlib.Core.Path.{ap₂}
use lgtm.Prelude.{
  ℕ, ◌-◌, ◌≤◌, ◌≡◌, refl, true, ◌||◌, List, [], ◌∷◌, map, ap, ◌∙◌, any, All, min, ◌==◌, arith,
}
use lgtm.Editor.{EditorHeading}
use lgtm.Toc.{least, shallowest, depths}

least-le : (m : ℕ) (headings : List EditorHeading) → least m headings ≤ m
least-le m [] = omega arith
least-le m (h ∷ headings) = omega (arith, least-le (min m h.level) headings)

abbrev pub AtLeast : ℕ → EditorHeading → Type 0
AtLeast n h = n ≤ h.level

least-All : (m : ℕ) (headings : List EditorHeading) → All (AtLeast (least m headings)) headings
least-All m [] = tt
least-All m (h ∷ headings) =
    (omega (arith, least-le (min m h.level) headings), least-All (min m h.level) headings)

-- the least level is the one given or one of a heading
least-any :
    (m : ℕ) (headings : List EditorHeading)
    → (m == least m headings || any (λ (h : EditorHeading). h.level == least m headings) headings)
      ≡ true
least-any m [] = ground arith
least-any m (h ∷ headings) = ground (arith, least-any (min m h.level) headings)

least_pos :
    (m : ℕ) (headings : List EditorHeading)
    → 1 ≤ m
    → All (AtLeast 1) headings
    → 1 ≤ least m headings
least_pos m [] p h = p
least_pos m (x ∷ headings) p h = least_pos (min m x.level) headings (omega (arith, h.0)) h.1

-- the levels that the page queries, h1 to h3
abbrev pub IsLevel : EditorHeading → Type 0
IsLevel h = (1 ≤ h.level) × (h.level ≤ 3)

IsLevel-AtLeast : (headings : List EditorHeading) → All IsLevel headings → All (AtLeast 1) headings
IsLevel-AtLeast [] h = tt
IsLevel-AtLeast (x ∷ headings) h = (h.0.0, IsLevel-AtLeast headings h.1)

unclamped :
    (s : ℕ) (headings : List EditorHeading)
    → 1 ≤ s
    → All IsLevel headings
    → map (λ (h : EditorHeading). min (h.level - s) 2) headings
      ≡ map (λ (h : EditorHeading). h.level - s) headings
unclamped s [] p h = refl
unclamped s (x ∷ headings) p h =
    let e : min (x.level - s) 2 ≡ x.level - s = omega (arith, h.0) in
    ap₂ (λ d ds. d ∷ ds) e (unclamped s headings p h.1)

outermost :
    (s : ℕ) (headings : List EditorHeading)
    → any (λ (h : EditorHeading). h.level == s) headings ≡ true
    → any (λ d. d == 0) (map (λ (h : EditorHeading). h.level - s) headings) ≡ true
outermost s [] h = h
outermost s (x ∷ headings) h = ground (arith, h, outermost s headings)

-- In an outline of headings of the levels 1 to 3 the depth of a row is how far its level is below
-- the shallowest level of the document, none is cut off, and some row is not indented at all.
pub depths-levels :
    (h : EditorHeading) (headings : List EditorHeading)
    → All IsLevel (h ∷ headings)
    → let s = shallowest (h ∷ headings) in
      (depths (h ∷ headings) ≡ map (λ (x : EditorHeading). x.level - s) (h ∷ headings))
      × All (AtLeast s) (h ∷ headings)
      × (any (λ d. d == 0) (depths (h ∷ headings)) ≡ true)
unfolding depths shallowest
depths-levels h headings ok =
    let s = least h.level headings in
    let pos = least_pos h.level headings ok.0.0 (IsLevel-AtLeast headings ok.1) in
    let exact = unclamped s (h ∷ headings) pos ok in
    (
      exact,
      (least-le h.level headings, least-All h.level headings),
      ap (any (λ d. d == 0)) exact ∙ outermost s (h ∷ headings) (least-any h.level headings),
    )

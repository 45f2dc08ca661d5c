-- ===== src/Toc/Visible.antt =====
-- The headings on screen (apps/web/src/components/editor-toc.tsx).
use lgtm.Prelude.{
  ℕ, suc, ◌+◌, ◌-◌, ◌≤◌, ◌≡◌, refl, ◌∙◌, Bool, true, false, List, [], ◌∷◌, length, keep, any, max,
  ◌==◌, Bool-cases, inl, inr, if◌then◌else◌, arith,
}
use lgtm.Toc.{Range, measure, update}

module _ {C : Type 0} where
  -- a test that holds for the headings down to some place of the page, in document order
  abbrev pub HoldsFirst : (C → Bool) → List C → Type 0
  HoldsFirst p [] = Unit
  HoldsFirst p (top ∷ tops) = (any p tops ≡ true → p top ≡ true) × HoldsFirst p tops

  abbrev count : (C → Bool) → List C → ℕ
  count p tops = length (keep p tops)

  none_later : (p : C → Bool) (tops : List C) → any p tops ≡ false → count p tops ≡ 0
  none_later p [] h = refl
  none_later p (top ∷ tops) h = ground (arith, h, none_later p tops)

  -- the index of the last heading for which the test holds, or `d`
  abbrev last_index : (C → Bool) → ℕ → ℕ → List C → ℕ
  last_index p i d [] = d
  last_index p i d (top ∷ tops) = last_index p (suc i) (if p top then i else d) tops

  last_index-count :
      (p : C → Bool) (i d : ℕ) (tops : List C)
      → HoldsFirst p tops
      → last_index p i d tops ≡ (if count p tops == 0 then d else i + count p tops - 1)
  last_index-count p i d [] h = refl
  last_index-count p i d (top ∷ tops) h = elim (Bool-cases (p top)) [
    | inl holds ↦ rw holds (last_index-count p (suc i) i tops h.1 ∙ ground arith)
    | inr ends ↦
        let none_left : any p tops ≡ false = ground (arith, h.0, ends) in
        rw ends
          (last_index-count p (suc i) d tops h.1 ∙ ground (arith, none_later p tops none_left))
  ]

  module _ (le lt : C → C → Bool) where
    measure-last_index :
        (line bottom : C) (i : ℕ) (r : Range) (tops : List C)
        → measure le lt line bottom i r tops ≡ record {
          first = last_index (λ top. le top line) i r.first tops;
          last = last_index (λ top. lt top bottom) i r.last tops;
        }
    unfolding measure
    measure-last_index line bottom i r [] = refl
    measure-last_index line bottom i r (top ∷ tops) = measure-last_index line bottom (suc i) _ tops

    -- With the headings in document order, the range goes from the heading being read, the last
    -- one at or above the reading line, to the last one above the bottom edge, or is that one
    -- heading; a bound with no heading is the first heading. What the range was before does not
    -- matter, as long as it was one.
    pub update-counts :
        (line bottom : C) (tops : List C) (current : Range)
        → HoldsFirst (λ top. le top line) tops
        → HoldsFirst (λ top. lt top bottom) tops
        → current.first ≤ current.last
        → let r = update le lt line bottom tops current in
          (r.first ≡ length (keep (λ top. le top line) tops) - 1)
          × (r.last ≡ max r.first (length (keep (λ top. lt top bottom) tops) - 1))
    unfolding update
    update-counts line bottom tops current h k wf =
        let e = measure-last_index line bottom 0 (record { first = 0; last = 0 }) tops in
        let f = last_index-count (λ top. le top line) 0 0 tops h in
        let l = last_index-count (λ top. lt top bottom) 0 0 tops k in rw e (ground (arith, f, l))

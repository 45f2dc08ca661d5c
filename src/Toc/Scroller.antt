-- ===== src/Toc/Scroller.antt =====
-- Which ancestor of a document scrolls it, and the measuring of the headings on screen over the life
-- of the outline (apps/web/src/components/editor-toc.tsx).
use lgtm.Prelude.{
  ◌≡◌, sym, ap, ◌∙◌, Bool, true, false, ◌||◌, Option, none, some, List, [], ◌∷◌, ◌++◌, Text, text,
  Bool-cases, inl, inr, All, arith, if◌then◌else◌,
}
use lgtm.Frame.Runners.{starts}
use lgtm.Toc.{Range, update}

-- an element above the document: the computed `overflowY`, and its edges on the screen
pub record Ancestor (C : Type 0) : Type 0 where
  pub overflow_y : Text
  pub top : C
  pub bottom : C

-- whether the first text stands somewhere in the second
abbrev pub occurs : Text → Text → Bool
occurs word [] = starts word []
occurs word (c ∷ s) = starts word (c ∷ s) || occurs word s

-- `SCROLLS`
unfoldable pub scrolls : Text → Bool
unfolding starts
scrolls overflow_y = occurs (text "auto") overflow_y || occurs (text "scroll") overflow_y

module _ {C : Type 0} where
  -- the loop that walks up, from the parent of the document on
  unfoldable pub scroller : List (Ancestor C) → Option (Ancestor C)
  unfolding scrolls
  scroller [] = none
  scroller (a ∷ ancestors) =
      let outer = scroller ancestors in if scrolls a.overflow_y then some a else outer

  -- The element that is listened to scrolls, and none between it and the document does.
  pub scroller-nearest :
      (ancestors : List (Ancestor C)) (a : Ancestor C)
      → scroller ancestors ≡ some a
      → (inner : List (Ancestor C)) × (outer : List (Ancestor C)) × (ancestors ≡ inner ++ a ∷ outer)
        × All (λ (b : Ancestor C). scrolls b.overflow_y ≡ false) inner
        × (scrolls a.overflow_y ≡ true)
  unfolding scroller
  scroller-nearest [] a e = cc
  scroller-nearest (b ∷ ancestors) a e = elim (Bool-cases (scrolls b.overflow_y)) [
    | inl here ↦
        let same : b ≡ a = ground (arith, here, e) in
        (
          [],
          ancestors,
          ap (λ x. x ∷ ancestors) same,
          tt,
          ap (λ x. scrolls x.overflow_y) (sym same) ∙ here,
        )
    | inr above ↦
        let (inner, outer, split, still, moves) =
          scroller-nearest ancestors a (ground (arith, above, e)) in
        (b ∷ inner, outer, ap (λ x. b ∷ x) split, (above, still), moves)
  ]

-- the comparisons and the sum that `update` makes, and the height of the window
pub record Screen (C : Type 0) : Type 0 where
  pub le : C → C → Bool
  pub lt : C → C → Bool
  -- a top edge plus `READING_LINE`, and `READING_LINE` itself
  pub below : C → C
  pub from_zero : C
  pub inner_height : C

-- what listens: nothing, an element, or the window
pub data Target (C : Type 0) : Type 0 where
  nothing window : Target C
  element : Ancestor C → Target C

pub record Watch (C : Type 0) : Type 0 where
  pub range : Range
  pub target : Target C

module _ {C : Type 0} (screen : Screen C) where
  abbrev pub reading_line : Option (Ancestor C) → C
  reading_line none = screen.from_zero
  reading_line (some a) = screen.below a.top

  abbrev pub bottom_edge : Option (Ancestor C) → C
  bottom_edge none = screen.inner_height
  bottom_edge (some a) = a.bottom

  unfoldable pub update_from : Option (Ancestor C) → List C → Range → Range
  unfolding update
  update_from a tops current =
      update screen.le screen.lt (reading_line a) (bottom_edge a) tops current

  abbrev target_of : Option (Ancestor C) → Target C
  target_of none = window
  target_of (some a) = element a

  -- the effect, when the headings change: the document's ancestors and the tops of its headings, if
  -- it is there; the clean-up has run
  unfoldable pub watch : Option (List (Ancestor C) × List C) → Watch C → Watch C
  unfolding scroller update_from
  watch none w = record w { target = nothing }
  watch (some (ancestors, tops)) w =
      let a = scroller ancestors in
      record { range = update_from a tops w.range; target = target_of a }

  -- a scroll of the element or the window that is listened to, with the new tops
  unfoldable pub scrolled : List C → Watch C → Watch C
  unfolding update_from
  scrolled tops w = elim w.target [
    | nothing ↦ w
    | window ↦ record w { range = update_from none tops w.range }
    | element a ↦ record w { range = update_from (some a) tops w.range }
  ]

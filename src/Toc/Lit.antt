-- ===== src/Toc/Lit.antt =====
-- The lit stretch of the outline's line (apps/web/src/components/editor-toc.tsx).
use lgtm.Prelude.{
  ℕ, zero, suc, ◌-◌, ◌≤◌, ◌<◌, ◌≡◌, refl, List, [], ◌∷◌, length, get_elem?, last_or, min, arith,
}
use lgtm.Toc.{Range, or_zero, lit_from, lit_to}

-- each row ends no earlier than the one before it
abbrev pub IsAscending : ℕ → List ℕ → Type 0
IsAscending before [] = Unit
IsAscending before (e ∷ ends) = (before ≤ e) × IsAscending e ends

abbrev at : List ℕ → ℕ → ℕ
at ends i = or_zero (get_elem? ends i)

before-at :
    (before : ℕ) (ends : List ℕ) (i : ℕ)
    → IsAscending before ends
    → i < length ends
    → before ≤ at ends i
before-at before [] i h k = elim k [ ]
before-at before (e ∷ ends) zero h k = h.0
before-at before (e ∷ ends) (suc i) h k = omega (arith, h.0, before-at e ends i h.1 (omega arith))

at_mono :
    (before : ℕ) (ends : List ℕ) (i j : ℕ)
    → IsAscending before ends
    → i ≤ j
    → j < length ends
    → at ends i ≤ at ends j
at_mono before [] i j h k l = elim l [ ]
at_mono before (e ∷ ends) zero zero h k l = omega arith
at_mono before (e ∷ ends) zero (suc j) h k l = before-at e ends j h.1 (omega arith)
at_mono before (e ∷ ends) (suc i) zero h k l = absurd (omega arith)
at_mono before (e ∷ ends) (suc i) (suc j) h k l = at_mono e ends i j h.1 (omega arith) (omega arith)

last-at : (e : ℕ) (ends : List ℕ) → at (e ∷ ends) (length ends) ≡ last_or e ends
last-at e [] = refl
last-at e (d ∷ ends) = last-at d ends

-- With the ends of the rows in order, the lit stretch is a part of the line: it begins no later
-- than it ends, and ends no later than the line, also when the range of the headings on screen is
-- of an outline with more rows.
pub lit-within :
    (e : ℕ) (ends : List ℕ) (visible : Range)
    → IsAscending 0 (e ∷ ends)
    → visible.first ≤ visible.last
    → (lit_from (e ∷ ends) visible ≤ lit_to (e ∷ ends) visible)
      × (lit_to (e ∷ ends) visible ≤ last_or e ends)
unfolding lit_from lit_to
lit-within e ends visible h wf =
    let n = length (e ∷ ends) - 1 in
    let f = min visible.first n in
    let l = min visible.last n in
    let upper : at (e ∷ ends) l ≤ at (e ∷ ends) (length ends) =
      at_mono 0 (e ∷ ends) l (length ends) h (omega arith) (omega arith) in
    let lower : at (e ∷ ends) (f - 1) ≤ at (e ∷ ends) l =
      at_mono 0 (e ∷ ends) (f - 1) l h (omega arith) (omega arith) in
    (ground (arith, lower), omega (arith, upper, last-at e ends))

-- ===== src/Prelude/Trim.antt =====
-- The laws of `trim`, with the end trimmed by structural recursion.
use Prim.Native.Nat.{ℕ}
use mathlib.Core.Path.{◌≡◌, refl, ap, ◌∙◌}
use mathlib.Core.Logic.{inl, inr}
use mathlib.Core.Bool.{false, ◌&&◌}
use mathlib.Core.List.{[], ◌∷◌, ◌++◌, reverse, reverse-cons, reverse-append}
use native.Mathlib.Omega.{arith}
use lgtm.Prelude.Tests.{if◌then◌else◌, Bool-cases}
use lgtm.Prelude.Texts.{Text, is_empty, is_space, trim_start, trim_end, trim}

trim_start-append :
    (s : Text) (c : ℕ)
    → trim_start (s ++ c ∷ [])
      ≡ (if is_empty (trim_start s) then trim_start (c ∷ []) else trim_start s ++ c ∷ [])
unfolding trim_start
trim_start-append [] c = refl
trim_start-append (a ∷ s) c = ground (arith, trim_start-append s c)

is_empty-append : (s : Text) (c : ℕ) → is_empty (s ++ c ∷ []) ≡ false
is_empty-append [] c = refl
is_empty-append (a ∷ s) c = refl

reverse-trimmed :
    (c : ℕ) (t : Text)
    → reverse (if is_empty t then trim_start (c ∷ []) else t ++ c ∷ [])
      ≡ (if is_space c && is_empty (reverse t) then [] else c ∷ reverse t)
unfolding trim_start
reverse-trimmed c [] = elim (Bool-cases (is_space c)) [
  | inl space ↦ rw space refl
  | inr other ↦ rw other refl
]
reverse-trimmed c (a ∷ t) =
    let full : is_empty (reverse (a ∷ t)) ≡ false =
      ap is_empty (reverse-cons a t) ∙ is_empty-append (reverse t) a in
    elim (Bool-cases (is_space c)) [
      | inl space ↦ rw (space, full) (reverse-append (a ∷ t) (c ∷ []))
      | inr other ↦ rw other (reverse-append (a ∷ t) (c ∷ []))
    ]

pub trim_end-cons :
    (c : ℕ) (s : Text)
    → trim_end (c ∷ s) ≡ (if is_space c && is_empty (trim_end s) then [] else c ∷ trim_end s)
unfolding trim_end
trim_end-cons c s =
    ap (λ t. reverse (trim_start t)) (reverse-cons c s)
    ∙ ap reverse (trim_start-append (reverse s) c)
    ∙ reverse-trimmed c (trim_start (reverse s))

pub trim_start-trim_start : (s : Text) → trim_start (trim_start s) ≡ trim_start s
unfolding trim_start
trim_start-trim_start [] = refl
trim_start-trim_start (c ∷ s) = ground (arith, trim_start-trim_start s)

pub trim_end-trim_end : (s : Text) → trim_end (trim_end s) ≡ trim_end s
trim_end-trim_end [] = unfold trim_end trim_start in refl
trim_end-trim_end (c ∷ s) =
    ground (arith, trim_end-trim_end s, trim_end-cons c s, trim_end-cons c (trim_end s))

pub trim_start-trim_end : (s : Text) → trim_start (trim_end s) ≡ trim_end (trim_start s)
unfolding trim_start
trim_start-trim_end [] = unfold trim_end in refl
trim_start-trim_end (c ∷ s) = ground (arith, trim_start-trim_end s, trim_end-cons c s)

pub trim-trim : (s : Text) → trim (trim s) ≡ trim s
unfolding trim
trim-trim s =
    ap trim_end (trim_start-trim_end (trim_start s))
    ∙ trim_end-trim_end (trim_start (trim_start s))
    ∙ ap trim_end (trim_start-trim_start s)

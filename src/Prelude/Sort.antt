-- ===== src/Prelude/Sort.antt =====
-- `Array.prototype.sort`, which is stable: insertion of each element in front of the first one
-- that may not stand before it. `le a b` says that `a` may stand in front of `b`.
use mathlib.Core.Path.{◌≡◌, refl, ap, ◌∙◌}
use mathlib.Core.Logic.{inl, inr}
use mathlib.Core.Bool.{Bool, true, false, not, ◌||◌}
use mathlib.Core.List.{List, [], ◌∷◌, ◌++◌, Perm}
use mathlib.Core.List.Perm
use native.Mathlib.Omega.{arith}
use lgtm.Prelude.Tests.{if◌then◌else◌, Bool-cases}
use lgtm.Prelude.Lists.{length, All, keep}

module _ {ℓ} {A : Type ℓ} (le : A → A → Bool) where
  unfoldable pub insert : A → List A → List A
  insert x [] = x ∷ []
  insert x (y ∷ ys) = let rest = insert x ys in if le x y then x ∷ y ∷ ys else y ∷ rest

  unfoldable pub sort : List A → List A
  unfolding insert
  sort [] = []
  sort (x ∷ xs) = insert x (sort xs)

  -- every element may stand in front of all that follow it
  abbrev pub IsSorted : List A → Type ℓ
  IsSorted [] = Unit
  IsSorted (x ∷ xs) = All (λ y. le x y ≡ true) xs × IsSorted xs

  module _ {κ} (P : A → Type κ) where
    insert-All : (x : A) (xs : List A) → P x → All P xs → All P (insert x xs)
    unfolding insert
    insert-All x [] p h = (p, tt)
    insert-All x (y ∷ ys) p h = elim (Bool-cases (le x y)) [
      | inl before ↦ rw before (p, h)
      | inr after ↦ rw after (h.0, insert-All x ys p h.1)
    ]

    pub sort-All : (xs : List A) → All P xs → All P (sort xs)
    unfolding sort
    sort-All [] h = tt
    sort-All (x ∷ xs) h = insert-All x (sort xs) h.0 (sort-All xs h.1)

  insert-perm : (x : A) (xs : List A) → Perm (insert x xs) (x ∷ xs)
  unfolding insert
  insert-perm x [] = Perm.refl _
  insert-perm x (y ∷ ys) = elim (Bool-cases (le x y)) [
    | inl before ↦ rw before (Perm.refl _)
    | inr after ↦ rw after (Perm.trans (Perm.cons y (insert-perm x ys)) (Perm.swap x y ys))
  ]

  pub sort-perm : (xs : List A) → Perm (sort xs) xs
  unfolding sort
  sort-perm [] = Perm.refl _
  sort-perm (x ∷ xs) = Perm.trans (insert-perm x (sort xs)) (Perm.cons x (sort-perm xs))

  length-keep-insert :
      (p : A → Bool) (x : A) (xs : List A)
      → length (keep p (insert x xs)) ≡ length (keep p (x ∷ xs))
  unfolding insert
  length-keep-insert p x [] = refl
  length-keep-insert p x (y ∷ ys) = ground (arith, length-keep-insert p x ys)

  -- Sorting keeps how many elements pass a test.
  pub length-keep-sort :
      (p : A → Bool) (xs : List A) → length (keep p (sort xs)) ≡ length (keep p xs)
  unfolding sort
  length-keep-sort p [] = refl
  length-keep-sort p (x ∷ xs) =
      ground (arith, length-keep-insert p x (sort xs), length-keep-sort p xs)

  module _ (total : (a b : A) → le a b ≡ false → le b a ≡ true)
      (transitive : (a b c : A) → le a b ≡ true → le b c ≡ true → le a c ≡ true) where
    All-before :
        (x y : A) (ys : List A)
        → le x y ≡ true
        → All (λ z. le y z ≡ true) ys
        → All (λ z. le x z ≡ true) ys
    All-before x y [] h k = tt
    All-before x y (z ∷ zs) h k = (transitive x y z h k.0, All-before x y zs h k.1)

    All-insert :
        (y x : A) (ys : List A)
        → le y x ≡ true
        → All (λ z. le y z ≡ true) ys
        → All (λ z. le y z ≡ true) (insert x ys)
    unfolding insert
    All-insert y x [] h k = (h, tt)
    All-insert y x (z ∷ zs) h k = elim (Bool-cases (le x z)) [
      | inl before ↦ rw before (h, k)
      | inr after ↦ rw after (k.0, All-insert y x zs h k.1)
    ]

    insert-IsSorted : (x : A) (xs : List A) → IsSorted xs → IsSorted (insert x xs)
    unfolding insert
    insert-IsSorted x [] s = (tt, tt)
    insert-IsSorted x (y ∷ ys) s = elim (Bool-cases (le x y)) [
      | inl before ↦ rw before ((before, All-before x y ys before s.0), s)
      | inr after ↦ rw after (All-insert y x ys (total x y after) s.0, insert-IsSorted x ys s.1)
    ]

    pub sort-IsSorted : (xs : List A) → IsSorted (sort xs)
    unfolding sort
    sort-IsSorted [] = tt
    sort-IsSorted (x ∷ xs) = insert-IsSorted x (sort xs) (sort-IsSorted xs)

  module _ (p : A → Bool) (tie : (a b : A) → p a ≡ true → p b ≡ true → le a b ≡ true) where
    keep-insert_in : (x : A) (ys : List A) → p x ≡ true → keep p (insert x ys) ≡ x ∷ keep p ys
    unfolding insert
    keep-insert_in x [] h = rw h
    keep-insert_in x (y ∷ ys) h = ground (arith, tie x y h, keep-insert_in x ys h)

    keep-insert_out : (x : A) (ys : List A) → p x ≡ false → keep p (insert x ys) ≡ keep p ys
    unfolding insert
    keep-insert_out x [] h = rw h
    keep-insert_out x (y ∷ ys) h = ground (arith, keep-insert_out x ys h)

    -- Elements that tie keep their order: the sort is stable.
    pub keep-sort : (xs : List A) → keep p (sort xs) ≡ keep p xs
    unfolding sort
    keep-sort [] = refl
    keep-sort (x ∷ xs) =
        ground (arith, keep-insert_in x (sort xs), keep-insert_out x (sort xs), keep-sort xs)

-- Sorting by a Boolean: the elements for which `first` holds come first, and both parts keep
-- their order.
module _ {ℓ} {A : Type ℓ} (le : A → A → Bool) (first : A → Bool)
    (by_first : (a b : A) → le a b ≡ (first a || not (first b))) where
  insert-first : (x : A) (ys : List A) → first x ≡ true → insert le x ys ≡ x ∷ ys
  unfolding insert
  insert-first x [] h = refl
  insert-first x (y ∷ ys) h = ground (arith, by_first x y)

  insert_last :
      (x : A) (ys zs : List A)
      → first x ≡ false
      → insert le x (keep first ys ++ keep (λ a. not (first a)) zs)
        ≡ keep first ys ++ x ∷ keep (λ a. not (first a)) zs
  unfolding insert
  insert_last x (y ∷ ys) zs h = ground (arith, by_first x y, insert_last x ys zs h)
  insert_last x [] [] h = refl
  insert_last x [] (z ∷ zs) h = ground (arith, by_first x z, insert_last x [] zs h)

  pub sort_by_first : (xs : List A) → sort le xs ≡ keep first xs ++ keep (λ a. not (first a)) xs
  unfolding sort
  sort_by_first [] = refl
  sort_by_first (x ∷ xs) = elim (Bool-cases (first x)) [
    | inl h ↦ insert-first x (sort le xs) h ∙ ap (λ l. x ∷ l) (sort_by_first xs) ∙ rw h
    | inr h ↦ ap (insert le x) (sort_by_first xs) ∙ insert_last x xs xs h ∙ rw h
  ]

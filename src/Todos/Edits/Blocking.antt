-- ===== src/Todos/Edits/Blocking.antt =====
-- How many todos a todo blocks and is blocked by (apps/web/src/routes/todos_.$id.tsx).
use lgtm.Prelude.{ℕ, ◌+◌, ◌≡◌, refl, Bool, List, [], ◌∷◌, keep, length, arith}
use lgtm.Types.{Todo}
use lgtm.Todos.Edits.{includes, blocking}

abbrev pub total : {A : Type 0} → (A → ℕ) → List A → ℕ
total f [] = 0
total f (x ∷ xs) = f x + total f xs

module _ {A : Type 0} (r : A → A → Bool) where
  total-cons :
      (x : A) (xs ys : List A)
      → total (λ y. length (keep (r y) (x ∷ xs))) ys
        ≡ length (keep (λ y. r y x) ys) + total (λ y. length (keep (r y) xs)) ys
  total-cons x xs [] = omega arith
  total-cons x xs (y ∷ ys) = ground (arith, total-cons x xs ys)

  total_empty : (ys : List A) → total (λ y. length (keep (r y) [])) ys ≡ 0
  total_empty [] = refl
  total_empty (y ∷ ys) = omega (arith, total_empty ys)

  total_swap :
      (xs ys : List A)
      → total (λ x. length (keep (λ y. r y x) ys)) xs ≡ total (λ y. length (keep (r y) xs)) ys
  total_swap [] ys = omega (arith, total_empty ys)
  total_swap (x ∷ xs) ys = omega (arith, total_swap xs ys, total-cons x xs ys)

-- how many of the todos are blockers of a todo
abbrev pub blockers_among : List Todo → Todo → ℕ
blockers_among all todo = length (keep (λ (t : Todo). includes todo.blockers t.id) all)

-- Over a list of todos, the numbers that the pages of the todos show as "Blocking" add up to the
-- numbers of todos of the list that are among the blockers of each.
pub blocking-total :
    (all : List Todo)
    → total (λ (todo : Todo). blocking todo.id all) all ≡ total (blockers_among all) all
unfolding blocking
blocking-total all = total_swap (λ (o t : Todo). includes o.blockers t.id) all all

-- ===== src/Tasks/Triage/Fold.antt =====
-- `Section` of apps/web/src/components/task-triage.tsx and its fold button.
use lgtm.Prelude.{
  ℕ, zero, suc, ◌+◌, ◌≡◌, Bool, true, false, List, [], ◌∷◌, length, take, length-keep-le, none,
  arith, ◌↔◌, leb, min, if◌then◌else◌,
}
use lgtm.Types.{Task}
use lgtm.Tasks.Triage.{section, preview, recent_of}

length-take : (n : ℕ) (xs : List Task) → length (take n xs) ≡ min n (length xs)
length-take zero xs = omega arith
length-take (suc n) [] = omega arith
length-take (suc n) (x ∷ xs) = omega (arith, length-take n xs)

-- Whether the section is unfolded or not, what it shows and what it hides add up to all of its
-- tasks. Unfolded it shows them all; folded it shows those that it counts, but five at most.
-- There is no button exactly when the section is folded and hides nothing.
pub section_accounts :
    (all : Bool) (since : ℕ) (tasks : List Task)
    → let s = section all since tasks in
      (length s.shown + s.hidden ≡ length tasks)
      × (length s.shown ≡ (if all then length tasks else min preview s.count))
      × ((s.button ≡ none) ↔ ((all ≡ false) × (s.hidden ≡ 0)))
unfolding section
section_accounts true since tasks = ground arith
section_accounts false since tasks =
    let recent = recent_of since tasks in
    let fewer = length-keep-le (λ (t : Task). leb since t.created_at) tasks in
    ground (arith, length-take preview recent)

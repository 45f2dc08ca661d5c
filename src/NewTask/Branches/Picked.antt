-- ===== src/NewTask/Branches/Picked.antt =====
-- The branches that the switcher picks (apps/web/src/routes/index.tsx).
use mathlib.Core.Path.{subst}
use lgtm.Prelude.{
  ◌≡◌, refl, Bool, true, false, not, ◌&&◌, ◌||◌, some, List, [], ◌∷◌, ◌++◌, Text, text_eq,
  text_eq_iff, text_eq_refl, trim, is_empty, All, All-append, arith, Bool-cases, inl, inr,
}
use lgtm.Prelude.Trim.{trim-trim}
use lgtm.Types.{NewTaskSpec, RunnerStatus}
use lgtm.NewTask.{Page, change_branch, submission}
use lgtm.NewTask.Branches.{
  Switcher, has_branch, custom_branch, can_use_custom_branch, SwitcherEvent, typed, toggled, picked,
  picked_custom, select_branch, pick_branch, pick_custom, step, run,
}

-- a branch that stays as it is when a task is sent
abbrev pub IsBranch : Text → Type 0
IsBranch branch = (trim branch ≡ branch) × (is_empty branch ≡ false)

abbrev pub no_twins : List Text → Bool
no_twins [] = true
no_twins (b ∷ bs) = not (has_branch bs b) && no_twins bs

-- the branches of the page are good ones, each stands there once, and the one picked is among them
pub record HasBranches (p : Page) : Type 0 where
  pub good : All IsBranch p.branches
  pub apart : no_twins p.branches ≡ true
  pub offered : has_branch p.branches p.branch ≡ true
  pub chosen : IsBranch p.branch

has_branch-append :
    (bs : List Text) (b next : Text)
    → has_branch (bs ++ next ∷ []) b ≡ (has_branch bs b || text_eq next b)
has_branch-append [] b next = ground arith
has_branch-append (c ∷ bs) b next = ground (arith, has_branch-append bs b next)

no_twins-append :
    (bs : List Text) (next : Text)
    → no_twins bs ≡ true
    → has_branch bs next ≡ false
    → no_twins (bs ++ next ∷ []) ≡ true
no_twins-append [] next h k = refl
no_twins-append (b ∷ bs) next h k = ground (
  arith,
  h,
  k,
  no_twins-append bs next,
  has_branch-append bs b next,
  text_eq_iff next b,
  text_eq_iff b next,
)

change_branch-HasBranches :
    (branch : Text) (p : Page)
    → IsBranch branch
    → HasBranches p
    → HasBranches (change_branch branch p)
unfolding change_branch
change_branch-HasBranches branch p b h = elim (Bool-cases (has_branch p.branches branch)) [
  | inl e ↦ record { good = rw e h.good; apart = rw e h.apart; offered = rw e e; chosen = b }
  | inr e ↦ record {
    good = rw e (All-append IsBranch p.branches (branch ∷ []) h.good (b, tt));
    apart = rw e (no_twins-append p.branches branch h.apart e);
    offered = ground (arith, e, has_branch-append p.branches branch branch, text_eq_refl branch);
    chosen = b;
  }
]

has_branch-IsBranch :
    (bs : List Text) (branch : Text)
    → All IsBranch bs
    → has_branch bs branch ≡ true
    → IsBranch branch
has_branch-IsBranch [] branch h k = absurd (ground (arith, k))
has_branch-IsBranch (b ∷ bs) branch h k = elim (Bool-cases (text_eq b branch)) [
  | inl e ↦ subst IsBranch ((text_eq_iff b branch).0 e) h.0
  | inr e ↦ has_branch-IsBranch bs branch h.1 (ground (arith, k, e))
]

pick_branch-HasBranches :
    (branch : Text) (s : Switcher) → HasBranches s.page → HasBranches (pick_branch branch s).page
unfolding pick_branch select_branch
pick_branch-HasBranches branch s h =
    elim (Bool-cases (has_branch s.page.branches branch && not (is_empty branch))) [
      | inl e ↦ rw e (
          change_branch-HasBranches branch s.page
            (has_branch-IsBranch s.page.branches branch h.good (ground (arith, e))) h)
      | inr e ↦ rw e h
    ]

custom-IsBranch : (s : Switcher) → can_use_custom_branch s ≡ true → IsBranch (custom_branch s)
unfolding can_use_custom_branch
custom-IsBranch s e = (trim-trim s.input_value, ground (arith, e))

pick_custom-HasBranches : (s : Switcher) → HasBranches s.page → HasBranches (pick_custom s).page
unfolding pick_custom select_branch
pick_custom-HasBranches s h = elim (Bool-cases (can_use_custom_branch s)) [
  | inl e ↦ rw e (change_branch-HasBranches (custom_branch s) s.page (custom-IsBranch s e) h)
  | inr e ↦ rw e h
]

step-HasBranches :
    (e : SwitcherEvent) (s : Switcher) → HasBranches s.page → HasBranches (step e s).page
unfolding step
step-HasBranches (typed input) s h = h
step-HasBranches (toggled next) s h = h
step-HasBranches (picked branch) s h = pick_branch-HasBranches branch s h
step-HasBranches picked_custom s h = pick_custom-HasBranches s h

-- Whatever is typed and picked in the switcher of a page, the page's branches stay distinct, trimmed
-- and not empty, and the branch in force stays one of them.
pub run-HasBranches :
    (es : List SwitcherEvent) (s : Switcher) → HasBranches s.page → HasBranches (run es s).page
unfolding run
run-HasBranches [] s h = h
run-HasBranches (e ∷ es) s h = run-HasBranches es (step e s) (step-HasBranches e s h)

submission-branch :
    (runners : List RunnerStatus) (p : Page) (spec : NewTaskSpec)
    → IsBranch p.branch
    → submission runners p ≡ some spec
    → spec.base_branch ≡ p.branch
unfolding submission
submission-branch runners p spec h sent = ground (arith, h, sent)

-- On a page whose branches are distinct, trimmed and not empty, and whose branch is one of them,
-- whatever is then typed and picked in the switcher: a task that is submitted starts from the
-- branch in force, as the switcher shows it, and that branch is among those that it lists.
pub submission-base_branch :
    (runners : List RunnerStatus) (es : List SwitcherEvent) (s : Switcher) (spec : NewTaskSpec)
    → HasBranches s.page
    → submission runners (run es s).page ≡ some spec
    → (spec.base_branch ≡ (run es s).page.branch)
      × (has_branch (run es s).page.branches spec.base_branch ≡ true)
submission-base_branch runners es s spec h sent =
    let p = (run es s).page in
    let after = run-HasBranches es s h in
    let base = submission-branch runners p spec after.chosen sent in (base, rw base after.offered)

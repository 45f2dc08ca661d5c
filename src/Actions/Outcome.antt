-- ===== src/Actions/Outcome.antt =====
-- The endings of an action of apps/web/src/hooks/use-action.ts.
use lgtm.Prelude.{
  ◌≡◌, refl, Bool, true, false, some, List, [], ◌∷◌, ◌++◌, Text, append_assoc, arith,
}
use lgtm.Actions.{
  Toast, success, failure, Stage, resting, calling, refetching, Actions, Event, start,
  call_resolves, call_rejects, refetch_resolves, refetch_rejects, mounted, busy, step, run,
}

-- how the call and the refetch of an action end
pub data Ending : Type 0 where
  both_resolve : Ending
  refused : Text → Ending
  refetch_fails : Text → Ending

abbrev pub events : {A : Type 0} → A → Text → Ending → List (Event A)
events a m both_resolve = start a m ∷ call_resolves ∷ refetch_resolves ∷ []
events a m (refused reason) = start a m ∷ call_rejects reason ∷ []
events a m (refetch_fails reason) = start a m ∷ call_resolves ∷ refetch_rejects reason ∷ []

abbrev pub shown : Text → Ending → List Toast
shown m both_resolve = success m ∷ []
shown m (refused reason) = failure reason ∷ []
shown m (refetch_fails reason) = success m ∷ failure reason ∷ []

abbrev pub all_well : Ending → Bool
all_well both_resolve = true
all_well _ = false

abbrev pub is_at_work : Stage → Bool
is_at_work resting = false
is_at_work (calling _) = true
is_at_work refetching = true

module _ {A : Type 0} where
  step-busy :
      (e : Event A) (s : Actions A)
      → busy s ≡ is_at_work s.stage
      → busy (step e s) ≡ is_at_work (step e s).stage
  unfolding step
  step-busy (start a m) s h = ground arith
  step-busy call_resolves s h = ground arith
  step-busy (call_rejects reason) s h = ground arith
  step-busy refetch_resolves s h = ground arith
  step-busy (refetch_rejects reason) s h = ground arith

  run-busy_from :
      (es : List (Event A)) (s : Actions A)
      → busy s ≡ is_at_work s.stage
      → busy (run es s) ≡ is_at_work (run es s).stage
  unfolding run
  run-busy_from [] s h = h
  run-busy_from (e ∷ es) s h = run-busy_from es (step e s) (step-busy e s h)

  -- Whatever is pressed and however the requests end, the page is busy exactly while an action
  -- waits for its call or for the refetch.
  pub run-busy :
      (es : List (Event A)) → busy (run es mounted) ≡ is_at_work (run es (mounted {A = A})).stage
  run-busy es = run-busy_from es mounted refl

  -- An action on a page that rests ends with the page at rest. It resolves to whether both its
  -- call and the refetch succeeded: one whose call succeeded and whose refetch failed resolves to
  -- false, and shows the toast of its success and then the reason of the failure.
  pub run-ending :
      (a : A) (m : Text) (ending : Ending) (s : Actions A)
      → busy s ≡ false
      → let s' = run (events a m ending) s in
        (busy s' ≡ false)
        × (s'.resolved ≡ some (all_well ending))
        × (s'.toasts ≡ s.toasts ++ shown m ending)
  unfolding run step
  run-ending a m both_resolve s h = rw h (refl, refl, refl)
  run-ending a m (refused reason) s h = rw h (refl, refl, refl)
  run-ending a m (refetch_fails reason) s h = rw h (refl, refl, append_assoc s.toasts _ _)

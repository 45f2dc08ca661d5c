-- ===== src/Drafts/Endings.antt =====
-- How the action of a box ends (apps/web/src/components/task-composer.tsx and the others).
use lgtm.Prelude.{
  ◌≡◌, refl, ap, ◌∙◌, true, false, Option, some, List, [], ◌∷◌, ◌++◌, map, append_assoc, Text,
  text_eq_refl, if◌then◌else◌, arith,
}
use lgtm.Actions
use lgtm.Actions.{Actions, busy, call_resolves, call_rejects, refetch_resolves, refetch_rejects}
use lgtm.Actions.Outcome.{Ending, both_resolve, refused, refetch_fails, all_well, shown}
use lgtm.Drafts.{Action, Box, Event, typed, submitted, settled, start, submit, settle, step, run}

-- what settles behind the start of an action
abbrev pub settles : {D : Type 0} → Ending → List (Event D)
settles both_resolve = settled call_resolves ∷ settled refetch_resolves ∷ []
settles (refused reason) = settled (call_rejects reason) ∷ []
settles (refetch_fails reason) = settled call_resolves ∷ settled (refetch_rejects reason) ∷ []

module _ {D : Type 0} (own : Text) (cleared : D) (prepare : D → Option Action) where
  run-append :
      (es fs : List (Event D)) (s : Box D)
      → run own cleared prepare (es ++ fs) s
        ≡ run own cleared prepare fs (run own cleared prepare es s)
  unfolding run
  run-append [] fs s = refl
  run-append (e ∷ es) fs s = run-append es fs (step own cleared prepare e s)

  -- a box of a busy page takes no text
  run-typed :
      (ds : List D) (s : Box D)
      → busy s.actions ≡ true
      → run own cleared prepare (map typed ds) s ≡ s
  unfolding run step
  run-typed [] s h = refl
  run-typed (d ∷ ds) s h =
      let same : step own cleared prepare (typed d) s ≡ s = ground (arith, h) in
      ap (run own cleared prepare (map typed ds)) same ∙ run-typed ds s h

  abbrev started : Action → Box D → Box D
  started a s = record s {
    actions = record s.actions { pending = some a.name; stage = Actions.calling a.message };
    calls = s.calls ++ a.call ∷ [];
  }

  submit-started :
      (a : Action) (s : Box D)
      → prepare s.draft ≡ some a
      → busy s.actions ≡ false
      → step own cleared prepare submitted s ≡ started a s
  unfolding step submit start Actions.begin
  submit-started a s e free = ground (arith, e, free)

  abbrev Ended : Action → Ending → Box D → Box D → Type 0
  Ended a ending s s' =
      (busy s'.actions ≡ false)
      × (s'.draft ≡ (if all_well ending then cleared else s.draft))
      × (s'.calls ≡ s.calls ++ a.call ∷ [])
      × (s'.actions.toasts ≡ s.actions.toasts ++ shown a.message ending)

  finish :
      (a : Action) (ending : Ending) (s : Box D)
      → a.name ≡ own
      → Ended a ending s (run own cleared prepare (settles ending) (started a s))
  unfolding run step settle Actions.step
  finish a both_resolve s n = (refl, rw (n, text_eq_refl own) refl, refl, refl)
  finish a (refused reason) s n = (refl, rw (n, text_eq_refl own) refl, refl, refl)
  finish a (refetch_fails reason) s n =
      (refl, rw (n, text_eq_refl own) refl, refl, append_assoc s.actions.toasts _ _)

  -- What a box hands over when it is submitted on a page at rest is called for once, and nothing
  -- that is typed while the page is busy counts. However the call and the refetch end, the page is
  -- then at rest and the toasts tell of it; the box is empty if both succeeded, and otherwise it
  -- holds what it held.
  pub submit-ending :
      (ds : List D) (a : Action) (ending : Ending) (s : Box D)
      → prepare s.draft ≡ some a
      → a.name ≡ own
      → busy s.actions ≡ false
      → Ended a ending s (run own cleared prepare (submitted ∷ (map typed ds ++ settles ending)) s)
  submit-ending ds a ending s e n free =
      let r : run own cleared prepare (submitted ∷ (map typed ds ++ settles ending)) s
          ≡ run own cleared prepare (settles ending) (started a s) =
        unfold run in
        ap (run own cleared prepare (map typed ds ++ settles ending)) (submit-started a s e free)
        ∙ run-append (map typed ds) (settles ending) (started a s)
        ∙ ap (run own cleared prepare (settles ending)) (run-typed ds (started a s) refl) in
      rw r (finish a ending s n)

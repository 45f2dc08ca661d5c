-- ===== src/Actions.antt =====
-- apps/web/src/hooks/use-action.ts: the life of a page's action, from one `await` to the next. The
-- owner of the hook disables its controls while the hook is busy, so one action runs at a time.
pub mod Outcome
pub mod Confirm
mod Tests
use lgtm.Prelude.{Bool, true, false, Option, none, some, List, [], ◌∷◌, ◌++◌, Text, if◌then◌else◌}

pub data Toast : Type 0 where
  success failure : Text → Toast

-- what the action awaits: its call, with the message for its success, or the route's refetch
pub data Stage : Type 0 where
  resting : Stage
  calling : Text → Stage
  refetching : Stage

pub record Actions (A : Type 0) : Type 0 where
  pub pending : Option A
  pub stage : Stage
  pub toasts : List Toast
  -- what the last action resolved to
  pub resolved : Option Bool

pub data Event (A : Type 0) : Type 0 where
  start : A → Text → Event A
  call_resolves : Event A
  call_rejects : Text → Event A
  refetch_resolves : Event A
  refetch_rejects : Text → Event A

module _ {A : Type 0} where
  abbrev pub mounted : Actions A
  mounted = record { pending = none; stage = resting; toasts = []; resolved = none }

  -- `pending !== null`
  abbrev pub busy : Actions A → Bool
  busy s = elim s.pending [ none ↦ false | some _ ↦ true ]

  unfoldable pub begin : A → Text → Actions A → Actions A
  begin action message s = record s { pending = some action; stage = calling message }

  unfoldable pub called : Actions A → Actions A
  called s = elim s.stage [
    | calling message ↦ record s { stage = refetching; toasts = s.toasts ++ success message ∷ [] }
    | resting ↦ s
    | refetching ↦ s
  ]

  -- the `catch` and the `finally`
  abbrev pub give_up : Text → Actions A → Actions A
  give_up reason s = record s {
    pending = none;
    stage = resting;
    toasts = s.toasts ++ failure reason ∷ [];
    resolved = some false;
  }

  unfoldable pub call_failed : Text → Actions A → Actions A
  call_failed reason s = elim s.stage [
    | calling _ ↦ give_up reason s
    | resting ↦ s
    | refetching ↦ s
  ]

  unfoldable pub refetched : Actions A → Actions A
  refetched s = elim s.stage [
    | refetching ↦ record s { pending = none; stage = resting; resolved = some true }
    | resting ↦ s
    | calling _ ↦ s
  ]

  unfoldable pub refetch_failed : Text → Actions A → Actions A
  refetch_failed reason s = elim s.stage [
    | refetching ↦ give_up reason s
    | resting ↦ s
    | calling _ ↦ s
  ]

  unfoldable pub step : Event A → Actions A → Actions A
  unfolding begin called call_failed refetched refetch_failed
  -- the control that starts the action is disabled while the hook is busy
  step (start action message) s = if busy s then s else begin action message s
  step call_resolves s = called s
  step (call_rejects reason) s = call_failed reason s
  step refetch_resolves s = refetched s
  step (refetch_rejects reason) s = refetch_failed reason s

  unfoldable pub run : List (Event A) → Actions A → Actions A
  run [] s = s
  run (e ∷ es) s = run es (step e s)

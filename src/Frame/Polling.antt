-- ===== src/Frame/Polling.antt =====
-- Pages that are refetched on an interval while something is under way:
-- apps/web/src/routes/tasks.$id.tsx and apps/web/src/routes/chats.$id.tsx. React runs the effect
-- after a render in which `live` has changed, its clean-up before it, and the last clean-up when
-- the page is left; the router, on which the effect depends too, stays the same. The window numbers
-- its intervals.
pub mod Intervals
use lgtm.Prelude.{
  ℕ, suc, Bool, true, false, not, ◌||◌, ◌==◌, Option, none, some, List, [], ◌∷◌, keep,
  if◌then◌else◌,
}
use lgtm.Types.{TaskStatus, queued, running, ChatTurn, person, agent}
use lgtm.Tasks.Composer.{same_status}

-- `status === "queued" || status === "running"`
unfoldable pub live_task : TaskStatus → Bool
live_task status = same_status status queued || same_status status running

-- `chat.turns.at(-1)?.role === "person"`
unfoldable pub pending_answer : List ChatTurn → Bool
pending_answer [] = false
pending_answer (turn ∷ []) = elim turn.role [ person ↦ true | agent ↦ false ]
pending_answer (_ ∷ next ∷ turns) = pending_answer (next ∷ turns)

pub record Page : Type 0 where
  -- whether the page stands, and whether what it shows is under way
  pub standing : Bool
  pub live : Bool
  -- the interval that the clean-up of the effect clears
  pub cleanup : Option ℕ
  -- the window's intervals, and the number of the next one
  pub intervals : List ℕ
  pub next : ℕ
  pub refetches : ℕ

-- the effect, and its clean-up
unfoldable pub poll : Page → Page
poll s =
    if s.live
    then record s { cleanup = some s.next; intervals = s.next ∷ s.intervals; next = suc s.next }
    else record s { cleanup = none }

unfoldable pub clean_up : Page → Page
clean_up s = elim s.cleanup [
  | none ↦ s
  | some id ↦ record s { cleanup = none; intervals = keep (λ i. not (i == id)) s.intervals }
]

abbrev pub same_bool : Bool → Bool → Bool
same_bool true b = b
same_bool false b = not b

-- the page before its first visit
abbrev pub away : Page
away = record {
  standing = false;
  live = false;
  cleanup = none;
  intervals = [];
  next = 0;
  refetches = 0;
}

pub data PageEvent : Type 0 where
  -- the page is rendered, by a visit or by a refetch, with what the loader gave
  rendered : Bool → PageEvent
  -- an interval of the window elapses
  elapsed : ℕ → PageEvent
  left : PageEvent

abbrev pub has_interval : ℕ → List ℕ → Bool
has_interval id [] = false
has_interval id (i ∷ is) = (i == id) || has_interval id is

unfoldable pub step : PageEvent → Page → Page
unfolding poll clean_up
step (rendered live) s =
    if not s.standing
    then poll (record s { standing = true; live = live })
    else if same_bool live s.live
    then s
    else poll (record (clean_up s) { live = live })
step (elapsed id) s =
    if has_interval id s.intervals then record s { refetches = suc s.refetches } else s
step left s = if s.standing then record (clean_up s) { standing = false } else s

unfoldable pub run : List PageEvent → Page → Page
unfolding step
run [] s = s
run (e ∷ es) s = run es (step e s)

-- ===== src/Sidebar/Adding.antt =====
-- The form for a new project (apps/web/src/components/app-sidebar.tsx), from one `await` to the
-- next.
use lgtm.Prelude.{
  ◌≡◌, refl, ap, append_assoc, append-nil, Bool, true, false, not, ◌||◌, List, [], ◌∷◌, ◌++◌, Text,
  text, trim, is_empty, if◌then◌else◌,
}
use lgtm.Types.{bool, Fields, Project}
use lgtm.Actions.{Toast, success, failure}
use lgtm.Server.{ApiCall}
use lgtm.Server.Calls.{create_project}
use lgtm.Sidebar.OpenMap.{set_member}

pub data Stage : Type 0 where
  resting : Stage
  -- the call for a repository, and the refetch behind it
  creating refetching : Text → Stage

pub record Form : Type 0 where
  pub open_map : Fields
  pub adding_project : Bool
  pub creating_project : Bool
  pub stage : Stage
  pub calls : List ApiCall
  pub toasts : List Toast

pub data Event : Type 0 where
  show hide : Event
  -- the text of the field
  submitted : Text → Event
  created : Project → Event
  refused : Text → Event
  refetched : Event
  refetch_fails : Text → Event

unfoldable pub add_project : Text → Form → Form
add_project entered s =
    let repository = trim entered in
    if s.creating_project || is_empty repository then s else record s {
      creating_project = true;
      stage = creating repository;
      calls = s.calls ++ create_project repository ∷ [];
    }

-- the `finally`, with the toasts of the `catch` before it
abbrev settle : List Toast → Form → Form
settle toasts s = record s {
  creating_project = false;
  stage = resting;
  toasts = s.toasts ++ toasts;
}

unfoldable pub step : Event → Form → Form
unfolding add_project set_member
step show s = record s { adding_project = true }
step hide s = record s { adding_project = false }
step (submitted entered) s = add_project entered s
step (created project) s = elim s.stage [
  | creating repository ↦ record s {
    open_map = set_member repository (bool true) s.open_map;
    adding_project = false;
    stage = refetching repository;
    toasts = s.toasts ++ success (project.name ++ text " added") ∷ [];
  }
  | resting ↦ s
  | refetching _ ↦ s
]
step (refused reason) s = elim s.stage [
  | creating _ ↦ settle (failure reason ∷ []) s
  | resting ↦ s
  | refetching _ ↦ s
]
step refetched s = elim s.stage [ refetching _ ↦ settle [] s | resting ↦ s | creating _ ↦ s ]
step (refetch_fails reason) s = elim s.stage [
  | refetching _ ↦ settle (failure reason ∷ []) s
  | resting ↦ s
  | creating _ ↦ s
]

unfoldable pub run : List Event → Form → Form
run [] s = s
run (e ∷ es) s = run es (step e s)

-- how the call and the refetch of a submitted form end
pub data Ending : Type 0 where
  added : Project → Ending
  not_added : Text → Ending
  added_stale : Project → Text → Ending

abbrev pub ends : Ending → List Event
ends (added project) = created project ∷ refetched ∷ []
ends (not_added reason) = refused reason ∷ []
ends (added_stale project reason) = created project ∷ refetch_fails reason ∷ []

abbrev pub shown : Ending → List Toast
shown (added project) = success (project.name ++ text " added") ∷ []
shown (not_added reason) = failure reason ∷ []
shown (added_stale project reason) = success (project.name ++ text " added") ∷ failure reason ∷ []

abbrev pub is_added : Ending → Bool
is_added (not_added _) = false
is_added _ = true

-- a form that waits for its call
abbrev waiting : Text → Form → Form
waiting repository s = record s {
  creating_project = true;
  stage = creating repository;
  calls = s.calls ++ create_project repository ∷ [];
}

finish :
    (repository : Text) (again : Text) (ending : Ending) (s : Form)
    → s.adding_project ≡ true
    → let s' = run (submitted again ∷ ends ending) (waiting repository s) in
      (s'.creating_project ≡ false)
      × (s'.adding_project ≡ not (is_added ending))
      × (s'.calls ≡ s.calls ++ create_project repository ∷ [])
      × (s'.toasts ≡ s.toasts ++ shown ending)
      × (s'.open_map
          ≡ (if is_added ending then set_member repository (bool true) s.open_map else s.open_map))
unfolding run step add_project
finish repository again (added project) s h =
    (refl, refl, refl, append-nil (s.toasts ++ _ ∷ []), refl)
finish repository again (not_added reason) s h = (refl, h, refl, refl, refl)
finish repository again (added_stale project reason) s h =
    (refl, refl, refl, append_assoc s.toasts _ _, refl)

-- A repository that is submitted in the form is asked for once, trimmed, although the form is
-- submitted again while it waits. The form is closed, and the group of the repository opened,
-- exactly if the project was created; the form can be used again in any case, and the toasts tell
-- of the project created and of the reason of a failure.
pub add-ending :
    (entered again : Text) (ending : Ending) (s : Form)
    → s.adding_project ≡ true
    → s.creating_project ≡ false
    → is_empty (trim entered) ≡ false
    → let s' = run (submitted entered ∷ submitted again ∷ ends ending) s in
      (s'.creating_project ≡ false)
      × (s'.adding_project ≡ not (is_added ending))
      × (s'.calls ≡ s.calls ++ create_project (trim entered) ∷ [])
      × (s'.toasts ≡ s.toasts ++ shown ending)
      × (s'.open_map ≡ (
          if is_added ending then set_member (trim entered) (bool true) s.open_map else s.open_map))
add-ending entered again ending s h free full =
    let e : step (submitted entered) s ≡ waiting (trim entered) s =
      unfold step add_project in rw (free, full) refl in
    let r : run (submitted entered ∷ submitted again ∷ ends ending) s
        ≡ run (submitted again ∷ ends ending) (waiting (trim entered) s) =
      unfold run in ap (λ t. run (submitted again ∷ ends ending) t) e in
    rw r (finish (trim entered) again ending s h)

-- ===== src/NewTask/Branches.antt =====
-- The branch that a task starts from: `BranchSwitcher` of apps/web/src/routes/index.tsx with the
-- state of the page that it changes. Its list offers the page's branches, and a branch that is
-- typed and not among them.
pub mod Picked
use lgtm.Prelude.{
  Bool, false, not, ◌&&◌, List, [], ◌∷◌, Text, text_eq, trim, is_empty, any, if◌then◌else◌,
}
use lgtm.NewTask.{Page, change_branch}

pub record Switcher : Type 0 where
  pub input_value : Text
  pub open_ : Bool
  pub page : Page

abbrev pub has_branch : List Text → Text → Bool
has_branch branches branch = any (λ b. text_eq b branch) branches

abbrev pub custom_branch : Switcher → Text
custom_branch s = trim s.input_value

unfoldable pub can_use_custom_branch : Switcher → Bool
can_use_custom_branch s =
    not (is_empty (custom_branch s)) && not (has_branch s.page.branches (custom_branch s))

pub data SwitcherEvent : Type 0 where
  typed : Text → SwitcherEvent
  toggled : Bool → SwitcherEvent
  -- a branch of the list, and the button for the one that is typed
  picked : Text → SwitcherEvent
  picked_custom : SwitcherEvent

unfoldable pub select_branch : Text → Switcher → Switcher
select_branch branch s = record s {
  page = change_branch branch s.page;
  input_value = [];
  open_ = false;
}

-- `handleValueChange`, of a branch that the list offers
unfoldable pub pick_branch : Text → Switcher → Switcher
unfolding select_branch
pick_branch branch s =
    if has_branch s.page.branches branch && not (is_empty branch) then select_branch branch s else s

-- `selectCustomBranch`, whose button stands there only for a branch that can be used
unfoldable pub pick_custom : Switcher → Switcher
unfolding select_branch can_use_custom_branch
pick_custom s = if can_use_custom_branch s then select_branch (custom_branch s) s else s

unfoldable pub step : SwitcherEvent → Switcher → Switcher
unfolding pick_branch pick_custom
step (typed input) s = record s { input_value = input }
step (toggled next) s = record s { input_value = []; open_ = next }
step (picked branch) s = pick_branch branch s
step picked_custom s = pick_custom s

unfoldable pub run : List SwitcherEvent → Switcher → Switcher
unfolding step
run [] s = s
run (e ∷ es) s = run es (step e s)

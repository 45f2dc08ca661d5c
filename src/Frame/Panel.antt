-- ===== src/Frame/Panel.antt =====
-- The right-hand panel of apps/web/src/components/app-shell.tsx: which panel the column has, and
-- whether it is open. Whether `localStorage` can be read and takes a value are arguments, since
-- each access may throw.
pub mod Kept
use lgtm.Prelude.{
  Bool, true, false, not, Option, none, some, List, [], ◌∷◌, Text, text, text_eq, if◌then◌else◌,
}

pub record RightPanel (Content : Type 0) : Type 0 where
  pub content : Content
  pub title : Text

pub record Column (Content : Type 0) : Type 0 where
  -- the panel of the task that the route loaded, the one that the page registered, and the one
  -- that the route declares
  pub task_panel : Option (RightPanel Content)
  pub page_panel : Option (RightPanel Content)
  pub placeholder : Option (RightPanel Content)
  -- `useTaskPanelOpen`
  pub open_ : Bool
  pub stored : Option Text

pub data ColumnEvent (Content : Type 0) : Type 0 where
  -- the route changes, with the panel of its task and the panel that it declares
  navigated : Option (RightPanel Content) → Option (RightPanel Content) → ColumnEvent Content
  -- a page hands the column its panel in a layout effect, and takes it back when it goes
  registered : RightPanel Content → ColumnEvent Content
  withdrawn : ColumnEvent Content
  -- the toggle of the header is pressed, which stands there beside a panel only
  toggled : Bool → ColumnEvent Content

-- what the effect that runs when the app opens makes of the stored preference
abbrev pub read_open : Option Text → Bool
read_open none = true
read_open (some stored) = text_eq stored (text "true")

abbrev pub bool_name : Bool → Text
bool_name true = text "true"
bool_name false = text "false"

module _ {Content : Type 0} where
  abbrev or_panel :
      Option (RightPanel Content) → Option (RightPanel Content) → Option (RightPanel Content)
  or_panel none other = other
  or_panel (some panel) other = some panel

  unfoldable pub panel_of : Column Content → Option (RightPanel Content)
  panel_of s = or_panel s.task_panel (or_panel s.page_panel s.placeholder)

  abbrev pub has_panel : Column Content → Bool
  has_panel s = elim (panel_of s) [ none ↦ false | some _ ↦ true ]

  -- `open={panel ? taskPanel.open : false}`
  unfoldable pub is_shown : Column Content → Bool
  unfolding panel_of
  is_shown s = if has_panel s then s.open_ else false

  unfoldable pub column_opened : Bool → Option Text → Column Content
  column_opened readable stored = record {
    task_panel = none;
    page_panel = none;
    placeholder = none;
    open_ = if readable then read_open stored else true;
    stored = stored;
  }

  unfoldable pub update_open : Bool → Bool → Column Content → Column Content
  update_open takes next s = record s {
    open_ = next;
    stored = if takes then some (bool_name next) else s.stored;
  }

  unfoldable pub step : ColumnEvent Content → Column Content → Column Content
  unfolding is_shown update_open
  step (navigated task declared) s = record s { task_panel = task; placeholder = declared }
  step (registered panel) s = record s { page_panel = some panel }
  step withdrawn s = record s { page_panel = none }
  step (toggled takes) s = if has_panel s then update_open takes (not (is_shown s)) s else s

  unfoldable pub run : List (ColumnEvent Content) → Column Content → Column Content
  unfolding step
  run [] s = s
  run (e ∷ es) s = run es (step e s)

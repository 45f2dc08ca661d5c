-- ===== src/Documents/Menu.antt =====
-- The menu of an open document and the life of the actions that the page starts
-- (apps/web/src/routes/skills_.$id.tsx, apps/web/src/routes/scratchpads_.$id.tsx, with
-- apps/web/src/hooks/use-action.ts). The trigger of the menu and the fields are disabled while the
-- page is busy, the menu's items are not, so actions may overlap. The toasts are in Actions.antt.
pub mod Deleting
use lgtm.Prelude.{
  ℕ, zero, suc, Bool, true, false, not, ◌&&◌, ◌||◌, Option, none, some, List, [], ◌∷◌, ◌++◌, text,
  text_eq, if◌then◌else◌,
}
use lgtm.Documents.{Run}

-- what a started action waits for
pub data Flight : Type 0 where
  calling refetching : Run → Flight

pub record Menu : Type 0 where
  pub is_open : Bool
  pub armed : Bool
  -- `pending !== null`
  pub busy : Bool
  pub flights : List Flight
  -- every action that was started, in order
  pub started : List Run
  -- the page has navigated to the list
  pub gone : Bool

abbrev pub mounted : Menu
mounted = record {
  is_open = false;
  armed = false;
  busy = false;
  flights = [];
  started = [];
  gone = false;
}

-- `run`, with `disarm` as `onStart`
unfoldable pub start : Run → Menu → Menu
start run s = record s {
  armed = false;
  busy = true;
  flights = s.flights ++ calling run ∷ [];
  started = s.started ++ run ∷ [];
}

-- the request that the action at a place waits for has ended: the actions left, and the one that
-- ended with it, with what it resolves to
unfoldable pub settle : ℕ → Bool → List Flight → List Flight × Option (Run × Bool)
settle i ok [] = ([], none)
settle zero ok (calling run ∷ fs) =
    if ok then (refetching run ∷ fs, none) else (fs, some (run, false))
settle zero ok (refetching run ∷ fs) = (fs, some (run, ok))
settle (suc i) ok (f ∷ fs) = let (later, ended) = settle i ok fs in (f ∷ later, ended)

abbrev pub is_delete : Run → Bool
is_delete run = text_eq run.action (text "delete")

-- the `finally`, and what a delete that resolved to true does next
abbrev pub end_with : Option (Run × Bool) → Menu → Menu
end_with none s = s
end_with (some (run, ok)) s = record s { busy = false; gone = s.gone || (is_delete run && ok) }

-- closing the menu disarms
unfoldable pub set_menu_open : Bool → Menu → Menu
set_menu_open open_ s =
    if open_
    then (if s.busy || s.gone then s else record s { is_open = true })
    else record s { is_open = false; armed = false }

-- the first press arms and keeps the menu open, the second deletes and closes it
unfoldable pub press_delete : Run → Menu → Menu
unfolding start set_menu_open
press_delete delete s =
    if not (s.is_open && not s.gone)
    then s
    else if s.armed
    then start delete (set_menu_open false s)
    else record s { armed = true }

-- another item of the menu, which closes it
unfoldable pub press_item : Run → Menu → Menu
unfolding start set_menu_open
press_item run s = if s.is_open && not s.gone then start run (set_menu_open false s) else s

-- a field that is left, or the picker, with the action that comes of it
unfoldable pub leave_field : Option Run → Menu → Menu
unfolding start
leave_field none s = s
leave_field (some run) s = if s.busy || s.gone then s else start run s

pub data MenuEvent : Type 0 where
  menu_changed : Bool → MenuEvent
  delete_pressed : MenuEvent
  item_pressed : Run → MenuEvent
  field_left : Option Run → MenuEvent
  settled : ℕ → Bool → MenuEvent

unfoldable pub step : Run → MenuEvent → Menu → Menu
unfolding set_menu_open press_delete press_item leave_field settle
step delete (menu_changed open_) s = set_menu_open open_ s
step delete delete_pressed s = press_delete delete s
step delete (item_pressed run) s = press_item run s
step delete (field_left run) s = leave_field run s
step delete (settled i ok) s =
    let (flights, ended) = settle i ok s.flights in end_with ended (record s { flights = flights })

unfoldable pub run : Run → List MenuEvent → Menu → Menu
unfolding step
run delete [] s = s
run delete (e ∷ es) s = run delete es (step delete e s)

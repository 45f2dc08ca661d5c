-- ===== src/Frame/Panel/Kept.antt =====
-- The panel over a visit and on the next one (apps/web/src/components/app-shell.tsx).
use lgtm.Prelude.{
  Bool-cases, inl, inr, ◌≡◌, refl, ◌∙◌, Bool, true, false, not, Option, some, List, [], ◌∷◌, Text,
  text, text_eq, last_or, if◌then◌else◌, arith,
}
use lgtm.Frame.Remembered.{Preference, chosen, item, item-chosen}
use lgtm.Frame.Panel.{
  Column, has_panel, is_shown, read_open, column_opened, bool_name, update_open, ColumnEvent,
  navigated, registered, withdrawn, toggled, step, run,
}

pub read_open-bool_name : (b : Bool) → read_open (some (bool_name b)) ≡ b
unfolding text text_eq
read_open-bool_name true = refl
read_open-bool_name false = refl

-- whether the panel is open, as a remembered choice
abbrev pub open_preference : Preference Bool
open_preference = record {
  read = read_open;
  written = λ b. some (bool_name b);
  next = not;
  read-written = read_open-bool_name;
}

abbrev flips : List Bool → Bool → Bool
flips = chosen open_preference

abbrev writes : List Bool → Bool → Option Text → Option Text
writes = item open_preference

module _ {Content : Type 0} where
  -- the presses of the toggle that find a panel, with what came of storing them
  abbrev pub presses : List (ColumnEvent Content) → Column Content → List Bool
  presses [] s = []
  presses (e ∷ es) s =
      let later = presses es (step e s) in
      elim e [
        | toggled takes ↦ if has_panel s then takes ∷ later else later
        | navigated _ _ ↦ later
        | registered _ ↦ later
        | withdrawn ↦ later
      ]

  -- what a step does to the preference
  step-presses :
      (e : ColumnEvent Content) (es : List (ColumnEvent Content)) (s : Column Content)
      → let later = presses es (step e s) in
        ((run es (step e s)).open_ ≡ flips later (step e s).open_)
          × ((run es (step e s)).stored ≡ writes later (step e s).open_ (step e s).stored)
        → ((run es (step e s)).open_ ≡ flips (presses (e ∷ es) s) s.open_)
          × ((run es (step e s)).stored ≡ writes (presses (e ∷ es) s) s.open_ s.stored)
  unfolding step is_shown update_open
  step-presses (navigated task declared) es s h = h
  step-presses (registered panel) es s h = h
  step-presses withdrawn es s h = h
  step-presses (toggled takes) es s h = elim (Bool-cases (has_panel s)) [
    | inl e ↦ ground (arith, h, e)
    | inr e ↦ ground (arith, h, e)
  ]

  run-presses :
      (es : List (ColumnEvent Content)) (s : Column Content)
      → ((run es s).open_ ≡ flips (presses es s) s.open_)
        × ((run es s).stored ≡ writes (presses es s) s.open_ s.stored)
  unfolding run
  run-presses [] s = (refl, refl)
  run-presses (e ∷ es) s = step-presses e es s (run-presses es (step e s))

  -- Whatever is stored when the app opens, and whichever routes are then visited, provided that the
  -- storage could be read and took the last press beside a panel: the panel is shown exactly where
  -- there is one and the preference, which each press beside a panel flips, is on; and the next
  -- visit opens with the preference as it was left.
  pub panel_kept :
      (stored : Option Text) (es : List (ColumnEvent Content))
      → last_or false (presses es (column_opened true stored)) ≡ true
      → let first = column_opened true stored in
        let s = run es first in
        (is_shown s ≡ (
          if has_panel s
          then chosen open_preference (presses es first) (read_open stored)
          else false))
        × ((column_opened {Content = Content} true s.stored).open_ ≡ s.open_)
  unfolding column_opened is_shown
  panel_kept stored es h =
      let first = column_opened {Content = Content} true stored in
      let (opens, keeps) = run-presses es first in
      let remembers =
        keeps
        ∙ item-chosen open_preference (presses es first) first.open_ _ false
            (λ e. ground (arith, e)) h in
      (ground (arith, opens), rw (remembers, opens) (read_open-bool_name _))

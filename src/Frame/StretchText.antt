-- ===== src/Frame/StretchText.antt =====
-- The item "Stretch text" of apps/web/src/components/account-menu.tsx, and the effect of
-- apps/web/src/routes/__root.tsx that starts the stretching in a development build. Each press
-- writes or removes the stored item, and reloads the page; where the storage throws, nothing else
-- of the press happens.
pub mod Kept
use lgtm.Prelude.{
  Bool, true, false, not, ◌&&◌, ◌||◌, Option, none, some, List, [], ◌∷◌, Text, text, text_eq,
  if◌then◌else◌,
}

pub record Visit : Type 0 where
  -- `on`, once the effect of the mount has run
  pub on : Bool
  -- the item under `STRETCH_KEY`
  pub stored : Option Text
  -- whether this visit's page is stretched
  pub stretched : Bool
  -- whether the page is to be loaded again
  pub reloading : Bool

abbrev pub is_one : Option Text → Bool
is_one none = false
is_one (some stored) = text_eq stored (text "1")

-- what a press leaves stored, for the choice that it makes
abbrev pub one : Bool → Option Text
one true = some (text "1")
one false = none

unfoldable pub opened : Bool → Option Text → Visit
opened dev stored = record {
  on = is_one stored;
  stored = stored;
  stretched = dev && is_one stored;
  reloading = false;
}

-- `toggle`
unfoldable pub toggle : Bool → Visit → Visit
toggle takes s = record s {
  stored = if takes then one (not s.on) else s.stored;
  reloading = takes || s.reloading;
}

unfoldable pub toggles : List Bool → Visit → Visit
unfolding toggle
toggles [] s = s
toggles (takes ∷ presses) s = toggles presses (toggle takes s)

unfoldable pub reload : Bool → Visit → Visit
unfolding opened
reload dev s = if s.reloading then opened dev s.stored else s

-- the visits one after another, each with its presses before the page goes
unfoldable pub run : Bool → List (List Bool) → Visit → Visit
unfolding toggles reload
run dev [] s = s
run dev (presses ∷ visits) s = run dev visits (reload dev (toggles presses s))

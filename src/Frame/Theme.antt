-- ===== src/Frame/Theme.antt =====
-- The theme: the script that apps/web/src/routes/__root.tsx runs before the first paint, and the
-- toggle of apps/web/src/components/account-menu.tsx. Whether `localStorage` can be read, and
-- whether it takes a value, are arguments: each access may throw.
pub mod Kept
use lgtm.Prelude.{
  ℕ, zero, suc, Bool, true, false, not, Option, none, some, List, [], ◌∷◌, Text, text, text_eq,
  if◌then◌else◌,
}

pub data Theme : Type 0 where
  light dark : Theme

abbrev pub theme_name : Theme → Text
theme_name light = text "light"
theme_name dark = text "dark"

-- the element <html>, with the two classes that the script and the toggle write
pub record Root : Type 0 where
  pub light_class : Bool
  pub dark_class : Bool
  pub data_theme : Option Theme
  pub color_scheme : Option Theme
  -- `data-theme-switching`, and the timeouts that will remove it
  pub switching : Bool
  pub timeouts : ℕ

-- as the server sends it
abbrev pub unpainted : Root
unpainted = record {
  light_class = false;
  dark_class = false;
  data_theme = none;
  color_scheme = none;
  switching = false;
  timeouts = 0;
}

abbrev pub is_dark : Theme → Bool
is_dark dark = true
is_dark light = false

unfoldable pub paint : Theme → Root → Root
paint theme root = record root {
  light_class = not (is_dark theme);
  dark_class = is_dark theme;
  data_theme = some theme;
  color_scheme = some theme;
}

-- the stored theme, or that of the system
unfoldable pub resolve : Option Text → Bool → Theme
resolve none prefers_dark = if prefers_dark then dark else light
resolve (some stored) prefers_dark =
    if text_eq stored (text "light")
    then light
    else if text_eq stored (text "dark")
    then dark
    else if prefers_dark
    then dark
    else light

-- `THEME_INIT_SCRIPT`
unfoldable pub init_script : Bool → Option Text → Bool → Root → Root
unfolding paint resolve
init_script readable stored prefers_dark root =
    if readable then paint (resolve stored prefers_dark) root else root

pub record Page : Type 0 where
  pub root : Root
  pub stored : Option Text

-- `toggleTheme`
unfoldable pub toggle_theme : Bool → Page → Page
unfolding paint
toggle_theme takes s =
    let next = if s.root.dark_class then light else dark in
    record s {
      root = paint next (record s.root { switching = true; timeouts = suc s.root.timeouts });
      stored = if takes then some (theme_name next) else s.stored;
    }

unfoldable pub timeout : Page → Page
timeout s = elim s.root.timeouts [
  | zero ↦ s
  | suc n ↦ record s { root = record s.root { switching = false; timeouts = n } }
]

pub data ThemeEvent : Type 0 where
  -- the item of the menu is pressed, and the storage takes the theme or throws
  pressed : Bool → ThemeEvent
  elapsed : ThemeEvent

unfoldable pub step : ThemeEvent → Page → Page
unfolding toggle_theme timeout
step (pressed takes) s = toggle_theme takes s
step elapsed s = timeout s

unfoldable pub run : List ThemeEvent → Page → Page
unfolding step
run [] s = s
run (e ∷ es) s = run es (step e s)

-- a page that opens
unfoldable pub first_paint : Bool → Option Text → Bool → Page
unfolding init_script
first_paint readable stored prefers_dark = record {
  root = init_script readable stored prefers_dark unpainted;
  stored = stored;
}

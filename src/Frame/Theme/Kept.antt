-- ===== src/Frame/Theme/Kept.antt =====
-- What the page shows of the theme, and what a later visit finds
-- (apps/web/src/components/account-menu.tsx, apps/web/src/routes/__root.tsx).
use lgtm.Prelude.{
  ◌<◌, ◌≡◌, refl, ◌∙◌, Bool, true, false, not, Option, some, List, [], ◌∷◌, Text, text, text_eq,
  arith, last_or, if◌then◌else◌,
}
use lgtm.Frame.Remembered.{Preference, chosen, item, item-chosen}
use lgtm.Frame.Theme.{
  Theme, light, dark, theme_name, is_dark, Root, unpainted, paint, resolve, init_script, Page,
  toggle_theme, timeout, ThemeEvent, pressed, elapsed, step, run, first_paint,
}

-- all four places show the theme
abbrev pub Shows : Theme → Root → Type 0
Shows theme root =
    (root.light_class ≡ not (is_dark theme))
    × (root.dark_class ≡ is_dark theme)
    × (root.data_theme ≡ some theme)
    × (root.color_scheme ≡ some theme)

pub theme_read :
    (prefers : Bool) (theme : Theme) → resolve (some (theme_name theme)) prefers ≡ theme
unfolding resolve text text_eq
theme_read prefers light = refl
theme_read prefers dark = refl

-- the theme as a remembered choice, where the system prefers the dark one or not
abbrev pub theme_preference : Bool → Preference Theme
theme_preference prefers = record {
  read = λ stored. resolve stored prefers;
  written = λ theme. some (theme_name theme);
  next = λ theme. if is_dark theme then light else dark;
  read-written = theme_read prefers;
}

-- the presses among the events, with whether the storage took what each wrote
abbrev pub presses : List ThemeEvent → List Bool
presses [] = []
presses (elapsed ∷ es) = presses es
presses (pressed takes ∷ es) = takes ∷ presses es

module _ (prefers : Bool) where
  abbrev after : List ThemeEvent → Theme → Theme
  after es = chosen (theme_preference prefers) (presses es)

  abbrev kept : List ThemeEvent → Theme → Option Text → Option Text
  kept es = item (theme_preference prefers) (presses es)

  step-Shows :
      (e : ThemeEvent) (theme : Theme) (s : Page)
      → Shows theme s.root
      → Shows (after (e ∷ []) theme) (step e s).root
        × ((step e s).stored ≡ kept (e ∷ []) theme s.stored)
  unfolding step toggle_theme timeout paint
  step-Shows (pressed takes) light s h = ground (arith, h)
  step-Shows (pressed takes) dark s h = ground (arith, h)
  step-Shows elapsed theme s h = ground (arith, h)

  after-cons :
      (e : ThemeEvent) (es : List ThemeEvent) (theme : Theme)
      → after (e ∷ es) theme ≡ after es (after (e ∷ []) theme)
  after-cons (pressed takes) es theme = refl
  after-cons elapsed es theme = refl

  kept-cons :
      (e : ThemeEvent) (es : List ThemeEvent) (theme : Theme) (stored : Option Text)
      → kept (e ∷ es) theme stored ≡ kept es (after (e ∷ []) theme) (kept (e ∷ []) theme stored)
  kept-cons (pressed takes) es theme stored = refl
  kept-cons elapsed es theme stored = refl

  run-Shows :
      (es : List ThemeEvent) (theme : Theme) (s : Page)
      → Shows theme s.root
      → Shows (after es theme) (run es s).root × ((run es s).stored ≡ kept es theme s.stored)
  unfolding run
  run-Shows [] theme s h = (h, refl)
  run-Shows (e ∷ es) theme s h =
      let (shows, keeps) = step-Shows e theme s h in
      let later = run-Shows es (after (e ∷ []) theme) (step e s) shows in
      rw (after-cons e es theme, kept-cons e es theme s.stored, ← keeps) later

paint-Shows : (theme : Theme) (root : Root) → Shows theme (paint theme root)
unfolding paint
paint-Shows theme root = (refl, refl, refl, refl)

first_paint-Shows :
    (stored : Option Text) (prefers : Bool)
    → Shows (resolve stored prefers) (first_paint true stored prefers).root
unfolding first_paint init_script
first_paint-Shows stored prefers = paint-Shows (resolve stored prefers) unpainted

revisit-Shows :
    (theme : Theme) (prefers : Bool)
    → Shows theme (first_paint true (some (theme_name theme)) prefers).root
revisit-Shows theme prefers =
    rw (theme_read prefers theme) at (first_paint-Shows (some (theme_name theme)) prefers)

-- On a page that could read its stored theme, whatever was stored, whatever the system preferred
-- and whatever is pressed, provided that the storage took the last press: the classes, the data
-- attribute and the colour scheme of the document agree on the first theme flipped by each press,
-- and a later visit shows the theme that was left, whatever the system prefers then.
pub theme_kept :
    (stored : Option Text) (prefers : Bool) (es : List ThemeEvent) (later : Bool)
    → last_or false (presses es) ≡ true
    → let s = run es (first_paint true stored prefers) in
      let theme = chosen (theme_preference prefers) (presses es) (resolve stored prefers) in
      Shows theme s.root × Shows theme (first_paint true s.stored later).root
theme_kept stored prefers es later h =
    let first = resolve stored prefers in
    let (shows, keeps) =
      run-Shows prefers es first (first_paint true stored prefers)
        (first_paint-Shows stored prefers) in
    let remembers =
      keeps
      ∙ item-chosen (theme_preference prefers) (presses es) first _ false (λ e. ground (arith, e))
          h in
    (shows, rw remembers (revisit-Shows _ later))

-- the attribute that stops the transitions stands only while a timeout will remove it
abbrev pub IsSettling : Page → Type 0
IsSettling s = s.root.switching ≡ true → 0 < s.root.timeouts

step-IsSettling : (e : ThemeEvent) (s : Page) → IsSettling s → IsSettling (step e s)
unfolding step toggle_theme timeout paint
step-IsSettling (pressed takes) s h = ground arith
step-IsSettling elapsed s h = ground (arith, h)

-- From an opened page on, the attribute that stops the transitions stands only while a timeout is
-- to come.
run-IsSettling : (es : List ThemeEvent) (s : Page) → IsSettling s → IsSettling (run es s)
unfolding run
run-IsSettling [] s h = h
run-IsSettling (e ∷ es) s h = run-IsSettling es (step e s) (step-IsSettling e s h)

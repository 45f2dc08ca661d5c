-- ===== src/Frame/Tests.antt =====
-- The frame on concrete visits: apps/web/src/components/app-shell.tsx, site-header.tsx,
-- account-menu.tsx and runner-list.tsx, and apps/web/src/routes/tasks.$id.tsx.
use lgtm.Prelude.{
  ◌≡◌, ◌↔◌, refl, true, false, none, List, [], ◌∷◌, text, text_eq, decimal, decimal_fuel, length,
}
use lgtm.Types.{awaiting_review}
use lgtm.Frame.Polling.{PageEvent, rendered, elapsed, left, away}
use lgtm.Frame.Polling as Polling
use lgtm.Frame.Polling.Intervals.{intervals_of, awaits, run-polls}
use lgtm.Frame.Theme.{Theme, light, dark, ThemeEvent, pressed, first_paint}
use lgtm.Frame.Theme as Theme
use lgtm.Frame.Theme.Kept.{Shows, theme_kept}
use lgtm.Frame.Title.{title_among, use_title, status_words}
use lgtm.Frame.Title.Distinct.{
  at_page, heading, on_skills, on_skill, on_todos, but_skills, headings_distinct,
}
use lgtm.Frame.Runners.{gigabytes, slot_segments, slot_meter, starts, platform_capability, tools}

-- a task that is opened while it runs, refetched, done, and looked at again while another runs
abbrev visits : List PageEvent
visits = rendered true ∷ elapsed 0 ∷ rendered false ∷ left ∷ rendered true ∷ []

run-polls_example :
    let s = Polling.run visits away in
    (s.intervals ≡ intervals_of s)
    × ((length s.intervals ≡ 1) ↔ (awaits visits false ≡ true))
    × ((s.intervals ≡ []) ↔ (awaits visits false ≡ false))
run-polls_example = run-polls visits

-- the system prefers dark at first; the toggle is pressed twice, and the first press is not stored
abbrev toggles : List ThemeEvent
toggles = pressed false ∷ pressed true ∷ []

theme_kept_example :
    let s = Theme.run toggles (first_paint true none true) in
    Shows dark s.root × Shows dark (first_paint true s.stored false).root
unfolding Theme.resolve
theme_kept_example = theme_kept none true toggles false refl

headings_distinct_example :
    (heading [] [] on_skills ≡ heading [] [] on_skill)
    ↔ (but_skills on_skills ≡ but_skills on_skill)
headings_distinct_example = headings_distinct [] [] on_skills on_skill

heading_todos : heading [] [] on_todos ≡ text "Todos"
unfolding heading at_page use_title title_among text text_eq
heading_todos = refl

status_words_review : status_words awaiting_review ≡ text "awaiting review"
unfolding status_words text
status_words_review = refl

memory_texts : (gigabytes 1535 ≡ text "1 GB") × (gigabytes 512 ≡ text "512 MB")
unfolding gigabytes text decimal decimal_fuel
memory_texts = (refl, refl)

meter_full : slot_meter 3 2 ≡ true ∷ true ∷ []
unfolding slot_meter slot_segments
meter_full = refl

tools_git : tools (text "os:linux" ∷ text "git" ∷ []) ≡ text "git" ∷ []
unfolding tools platform_capability starts text
tools_git = refl

-- ===== src/Creation.antt =====
-- The documents that the lists of apps/web/src/routes/scratchpads.tsx and
-- apps/web/src/routes/skills.tsx create: the title of a new scratchpad, and the name and the file
-- of a new skill. The browser's clock is an argument, as what the getters of a `Date` return.
pub mod Digits
pub mod Names
pub mod Slugs
pub mod Titles
pub mod Visit
mod Tests
use lgtm.Prelude.{
  ℕ, zero, suc, ◌+◌, ◌-◌, Bool, false, ◌||◌, Option, none, some, List, [], ◌∷◌, ◌++◌, Text, text,
  text_eq, decimal, length, if◌then◌else◌,
}
use lgtm.Types.{Skill}
use lgtm.Server.{ApiCall}
use lgtm.Server.Calls.{create_skill, create_scratchpad}

-- `getMonth()` counts from 0
pub record Moment : Type 0 where
  pub month : ℕ
  pub date : ℕ
  pub hours : ℕ
  pub minutes : ℕ

abbrev pub zeros : ℕ → Text
zeros zero = []
zeros (suc n) = b'0' ∷ zeros n

-- `String(n).padStart(2, "0")`
unfoldable pub pad : ℕ → Text
pad n = zeros (2 - length (decimal n)) ++ decimal n

unfoldable pub default_title : Moment → Text
default_title now =
    pad (now.month + 1)
    ++ text "-"
    ++ pad now.date
    ++ text "-"
    ++ pad now.hours
    ++ text "-"
    ++ pad now.minutes
    ++ text " Scratchpad"

-- `taken.has(name)`
unfoldable pub has : List Text → Text → Bool
has [] name = false
has (t ∷ taken) name = text_eq t name || has taken name

-- the names of the skills that apply to every repository
unfoldable pub taken_names : List Skill → List Text
taken_names [] = []
taken_names (skill ∷ skills) =
    elim skill.repository [ none ↦ skill.name ∷ [] | some _ ↦ [] ] ++ taken_names skills

unfoldable pub base_name : Moment → Text
base_name now =
    text "new-skill-"
    ++ pad (now.month + 1)
    ++ pad now.date
    ++ text "-"
    ++ pad now.hours
    ++ pad now.minutes

unfoldable pub numbered : Text → ℕ → Text
numbered base n = base ++ b'-' ∷ decimal n

-- the `for` loop with its counter and the name that it tries; `none` is fuel that ran out
unfoldable pub free_from : ℕ → Text → List Text → ℕ → Text → Option Text
unfolding has
free_from zero base taken n name = none
free_from (suc f) base taken n name =
    let later = free_from f base taken (n + 1) (numbered base n) in
    if has taken name then later else some name

-- One round more than there are names that are taken.
unfoldable pub free_name : List Skill → Moment → Option Text
unfolding free_from
free_name skills now =
    let taken = taken_names skills in
    free_from (suc (length taken)) (base_name now) taken 2 (base_name now)

-- the frontmatter that the orchestrator insists on
unfoldable pub template : Text → Text
template name =
    text "---\nname: "
    ++ name
    ++ text "\ndescription: What this does and when an agent should use it.\n---\n\n"

-- the calls of the two `create` callbacks
unfoldable pub new_scratchpad : Moment → ApiCall
unfolding default_title
new_scratchpad now = create_scratchpad (default_title now) none []

abbrev named_skill : Option Text → Option ApiCall
named_skill none = none
named_skill (some name) = some (create_skill none (template name))

unfoldable pub new_skill : List Skill → Moment → Option ApiCall
unfolding free_name template
new_skill skills now = named_skill (free_name skills now)

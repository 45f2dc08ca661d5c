-- ===== src/Documents.antt =====
-- What can be done to an open document beside typing in it: apps/web/src/routes/scratchpads_.$id.tsx
-- and apps/web/src/routes/skills_.$id.tsx. Each callback yields the action that it hands to
-- `useAction`, if it hands it one.
pub mod Details
pub mod Menu
pub mod Pad
pub mod Skills
pub mod Frontmatter
pub mod Edits
pub mod Neat
mod Tests
use lgtm.Prelude.{
  Bool, true, false, ◌||◌, Option, none, some, List, [], ◌∷◌, ◌++◌, Text, text, text_eq, is_empty,
  is_space, trim, find, if◌then◌else◌,
}
use lgtm.Types.{Project}
use lgtm.Server.{ApiCall}

-- the name of an action, its call, and the toast for its success
pub record Run : Type 0 where
  pub action : Text
  pub call : ApiCall
  pub message : Text

-- the picker's "no repository" choice
abbrev pub every_repository : Text
every_repository = []

-- `repository ?? EVERY_REPOSITORY`
abbrev pub picked : Option Text → Text
picked none = every_repository
picked (some repository) = repository

-- `repository === EVERY_REPOSITORY ? null : repository`
abbrev pub repository_of : Text → Option Text
repository_of repository = if is_empty repository then none else some repository

abbrev pub has_repository : Text → Project → Bool
has_repository repository project = elim project.repository [
  | none ↦ false
  | some r ↦ text_eq r repository
]

abbrev pub name_or : Text → Option Project → Text
name_or default none = default
name_or default (some project) = project.name

unfoldable pub repository_name : List Project → Text → Text
repository_name projects repository =
    name_or (text "Every repository") (find (has_repository repository) projects)

-- `projects.flatMap((project) => project.repository === null ? [] : [project.repository])`
unfoldable pub repositories : List Project → List Text
repositories [] = []
repositories (project ∷ projects) =
    elim project.repository [ none ↦ [] | some r ↦ r ∷ [] ] ++ repositories projects

-- `s.replace(/\s+/g, " ")`; the flag says that the character in front is white space too
unfoldable pub collapse : Bool → Text → Text
collapse inside [] = []
collapse inside (c ∷ s) =
    let rest = collapse (is_space c) s in
    if is_space c then (if inside then rest else 32 ∷ rest) else c ∷ rest

unfoldable pub normalize : Text → Text
unfolding collapse
normalize s = trim (collapse false s)

-- leaving a field that held `saved` with `typed` in it: the text to save, and what the field shows
unfoldable pub edited : Text → Text → Option Text × Text
unfolding normalize
edited saved typed =
    let next = normalize typed in
    if is_empty next || text_eq next saved then (none, saved) else (some next, typed)

abbrev on_text : (Text → Run) → Option Text → Option Run
on_text run none = none
on_text run (some s) = some (run s)

-- the key pressed in a field
pub data Key : Type 0 where
  enter escape other : Key

-- what the field then holds, and whether it is left
unfoldable pub commit_or_restore : Key → Text → Text → Text × Bool
commit_or_restore enter saved typed = (typed, true)
commit_or_restore escape saved typed = (saved, true)
commit_or_restore other saved typed = (typed, false)

-- a press of Delete: whether the next press deletes, and the action; starting it disarms
unfoldable pub press_delete : Run → Bool → Bool × Option Run
press_delete run armed = if armed then (false, some run) else (true, none)

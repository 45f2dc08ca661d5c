-- ===== src/Projects/Complete.antt =====
-- Which projects `groupByProject` lists (apps/web/src/components/app-sidebar.tsx).
use lgtm.Prelude.{Bool, false, ◌||◌, Option, none, some, List, [], ◌∷◌, Text, text_eq, any}
use lgtm.Types.{Task, Project}
use lgtm.Projects.{Listed}
use lgtm.Projects.Grouping.{in_repository}

-- whether a project has this repository, which is not empty
abbrev pub names : Text → Option Text → Bool
names r none = false
names r (some []) = false
names r (some (c ∷ s)) = text_eq (c ∷ s) r

-- a repository that a project or a task has
abbrev pub is_known : Text → List Task → List Project → Bool
is_known r tasks records =
    any (in_repository r) tasks || any (λ (p : Project). names r p.repository) records

abbrev pub is_of : Text → Listed → Bool
is_of r p = text_eq p.repository r

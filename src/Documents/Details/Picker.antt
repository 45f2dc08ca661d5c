-- ===== src/Documents/Details/Picker.antt =====
-- What the picker of a document's repository says and checks (apps/web/src/routes/skills_.$id.tsx,
-- apps/web/src/routes/scratchpads_.$id.tsx).
use lgtm.Prelude.{
  ◌≡◌, ◌≢◌, refl, ap, ◌∙◌, Bool, true, false, none, some, List, [], ◌∷◌, Text, text, text_eq,
  text_eq_iff, find, any, arith,
}
use lgtm.Types.{Project}
use lgtm.Documents.{has_repository, name_or, repository_name, repositories, picked}
use lgtm.Documents.Details.{options, is_checked}

abbrev pub has_project : Text → List Project → Bool
has_project repository projects = any (has_repository repository) projects

any-repositories :
    (r : Text) (projects : List Project)
    → any (λ option. text_eq option r) (repositories projects) ≡ has_project r projects
unfolding repositories
any-repositories r [] = refl
any-repositories r (project ∷ projects) = ground (arith, any-repositories r projects)

find-has_project :
    (r : Text) (projects : List Project)
    → has_project r projects ≡ false
    → find (has_repository r) projects ≡ none
find-has_project r [] h = refl
find-has_project r (project ∷ projects) h = ground (arith, h, find-has_project r projects)

is_checked-has_project :
    (projects : List Project) (r : Text)
    → r ≢ []
    → is_checked projects (some r) ≡ has_project r projects
unfolding is_checked options
is_checked-has_project projects r h =
    ground (arith, h, text_eq_iff [] r, any-repositories r projects)

-- A document that is restricted to a repository without a project is labelled as one that applies
-- to every repository, and the picker checks none of its choices, so that nothing on the page tells
-- of the restriction.
pub unlisted-misleads :
    (projects : List Project) (r : Text)
    → r ≢ []
    → has_project r projects ≡ false
    → (repository_name projects (picked (some r)) ≡ text "Every repository")
      × (is_checked projects (some r) ≡ false)
unfolding repository_name
unlisted-misleads projects r h k = (
  ap (name_or (text "Every repository")) (find-has_project r projects k),
  is_checked-has_project projects r h ∙ k,
)

-- A document of every repository is checked as such.
every-is_checked : (projects : List Project) → is_checked projects none ≡ true
unfolding is_checked options text_eq
every-is_checked projects = refl

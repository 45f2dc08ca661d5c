-- ===== src/Frame/Title/Distinct.antt =====
-- Which pages the heading tells apart (apps/web/src/components/site-header.tsx), over the routes of
-- apps/web/src/routes.
use lgtm.Prelude.{
  ◌≡◌, ◌↔◌, refl, sym, ap, ◌∙◌, Option, none, some, List, [], ◌∷◌, Text, text, text_eq,
  if◌then◌else◌,
}
use lgtm.Types.{Task, Chat}
use lgtm.Frame.Title.{title_among, use_title}

-- the pages whose heading does not depend on a record
pub data FixedPage : Type 0 where
  on_home on_tasks on_runners on_todos on_memories on_scratchpads on_activity on_todo on_scratchpad
        on_skills on_skill :
      FixedPage

abbrev pub path_of : FixedPage → Text
path_of on_home = text "/"
path_of on_tasks = text "/tasks"
path_of on_runners = text "/runners"
path_of on_todos = text "/todos"
path_of on_memories = text "/memories"
path_of on_scratchpads = text "/scratchpads"
path_of on_activity = text "/activity"
path_of on_todo = text "/todos/$id"
path_of on_scratchpad = text "/scratchpads/$id"
path_of on_skills = text "/skills"
path_of on_skill = text "/skills/$id"

-- a router that matches the route of one page, by its whole path
unfoldable pub at_page : FixedPage → Text → Option Text
at_page page to = if text_eq to (path_of page) then some [] else none

unfoldable pub heading : List Task → List Chat → FixedPage → Text
unfolding at_page
heading tasks chats page = use_title (at_page page) tasks chats

-- the page of a list of skills and the page of a skill counted as one
abbrev pub but_skills : FixedPage → FixedPage
but_skills on_skill = on_skills
but_skills page = page

abbrev all_pages : List FixedPage
all_pages =
    on_home ∷ on_tasks ∷ on_runners ∷ on_todos ∷ on_memories ∷ on_scratchpads ∷ on_activity
    ∷ on_todo ∷ on_scratchpad ∷ on_skills ∷ []

-- the page that a heading stands over
abbrev page_among : List FixedPage → (FixedPage → Text) → Text → FixedPage
page_among [] name title = on_skills
page_among (page ∷ pages) name title =
    if text_eq title (name page) then page else page_among pages name title

heading-page :
    (tasks : List Task) (chats : List Chat) (page : FixedPage)
    → page_among all_pages (heading [] []) (heading tasks chats page) ≡ but_skills page
unfolding heading at_page use_title title_among text text_eq
heading-page ts cs on_home = refl
heading-page ts cs on_tasks = refl
heading-page ts cs on_runners = refl
heading-page ts cs on_todos = refl
heading-page ts cs on_memories = refl
heading-page ts cs on_scratchpads = refl
heading-page ts cs on_activity = refl
heading-page ts cs on_todo = refl
heading-page ts cs on_scratchpad = refl
heading-page ts cs on_skills = refl
heading-page ts cs on_skill = refl

heading-but_skills :
    (tasks : List Task) (chats : List Chat) (page : FixedPage)
    → heading tasks chats (but_skills page) ≡ heading tasks chats page
unfolding heading at_page use_title title_among text text_eq
heading-but_skills tasks chats on_skill = refl
heading-but_skills tasks chats _ = refl

-- Whatever the tasks and chats are, and with a router that matches the route of the page and no
-- other: of the pages whose heading does not depend on a record, two have the same heading exactly
-- if they are the same page, where the list of the skills and the page of a skill count as one.
pub headings_distinct :
    (tasks : List Task) (chats : List Chat) (p q : FixedPage)
    → (heading tasks chats p ≡ heading tasks chats q) ↔ (but_skills p ≡ but_skills q)
headings_distinct tasks chats p q = (
  λ h.
      sym (heading-page tasks chats p)
      ∙ ap (page_among all_pages (heading [] [])) h
      ∙ heading-page tasks chats q,
  λ h.
      sym (heading-but_skills tasks chats p)
      ∙ ap (heading tasks chats) h
      ∙ heading-but_skills tasks chats q,
)

-- The pages of the skills have the heading of no page in particular.
pub heading-skills :
    (tasks : List Task) (chats : List Chat) → heading tasks chats on_skills ≡ text "LGTM"
unfolding heading at_page use_title title_among text text_eq
heading-skills tasks chats = refl

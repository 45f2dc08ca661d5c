-- ===== src/Server/Calls/Workspace.antt =====
-- apps/web/src/lib/lgtm/server.ts: the calls about projects, memories and todos.
use lgtm.Prelude.{none, Option, List, [], ◌∷◌, ◌++◌, Text, text}
use lgtm.Types.{str, TodoStatus, TodoPriority}
use lgtm.Server.{ApiCall, post, patch}
use lgtm.Server.Calls.Requests.{
  get, act, remove, send, must, may, value_of, texts_value, status_value, priority_value,
}

unfoldable pub get_memories : ApiCall
get_memories = get (text "/memories")

unfoldable pub get_todos : ApiCall
get_todos = get (text "/todos")

unfoldable pub get_projects : ApiCall
get_projects = get (text "/projects")

unfoldable pub create_project : Text → ApiCall
create_project repository = send post (text "/projects") (must (text "repository") repository ∷ [])

unfoldable pub update_project_prefix : Text → Text → ApiCall
update_project_prefix id prefix =
    send patch (text "/projects/" ++ id) (must (text "prefix") prefix ∷ [])

unfoldable pub get_todo : Text → ApiCall
get_todo id = get (text "/todos/" ++ id)

unfoldable pub update_memory : Text → Text → ApiCall
update_memory id content = send patch (text "/memories/" ++ id) (must (text "content") content ∷ [])

unfoldable pub delete_memory : Text → ApiCall
delete_memory id = remove (text "/memories/" ++ id)

unfoldable pub approve_memory : Text → ApiCall
approve_memory id = act (text "/memories/" ++ id ++ text "/approve")

pub record TodoPatch : Type 0 where
  pub title : Option Text
  pub description : Option Text
  pub status : Option TodoStatus
  pub priority : Option TodoPriority
  pub assignee : Option (Option Text)
  pub blockers : Option (List Text)
  pub tags : Option (List Text)

abbrev pub no_todo_patch : TodoPatch
no_todo_patch = record {
  title = none;
  description = none;
  status = none;
  priority = none;
  assignee = none;
  blockers = none;
  tags = none;
}

unfoldable pub update_todo : Text → TodoPatch → ApiCall
update_todo id patch_of = send patch (text "/todos/" ++ id) (
    may (text "title") str patch_of.title
    ∷ may (text "description") str patch_of.description
    ∷ may (text "status") status_value patch_of.status
    ∷ may (text "priority") priority_value patch_of.priority
    ∷ may (text "assignee") value_of patch_of.assignee
    ∷ may (text "blockers") texts_value patch_of.blockers
    ∷ may (text "tags") texts_value patch_of.tags
    ∷ [])

unfoldable pub delete_todo : Text → ApiCall
delete_todo id = remove (text "/todos/" ++ id)

unfoldable pub comment_on_todo : Text → Text → ApiCall
comment_on_todo id body =
    send post (text "/todos/" ++ id ++ text "/comments") (must (text "body") body ∷ [])

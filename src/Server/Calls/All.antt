-- ===== src/Server/Calls/All.antt =====
-- All server functions of apps/web/src/lib/lgtm/server.ts with their arguments.
use lgtm.Prelude.{
  Bool, true, false, Option, none, some, [], ◌∷◌, Text, text, ◌≡◌, arith, ◌==◌, ◌&&◌,
}
use lgtm.Types.{NewTaskSpec, Executor}
use lgtm.Server.{ApiCall, is_read}
use lgtm.Server.Calls.Tasks
use lgtm.Server.Calls.Workspace
use lgtm.Server.Calls.Workspace.{TodoPatch}
use lgtm.Server.Calls.Documents
use lgtm.Server.Calls.Documents.{SkillPatch, ScratchpadPatch}

pub data Call : Type 0 where
  get_runners : Call
  get_tasks : Call
  get_stats : Call
  get_activity : Call
  get_task : Text → Call
  create_task : NewTaskSpec → Call
  enhance_prompt : Text → Option Text → Call
  get_chats : Call
  get_chat : Text → Call
  create_chat : Text → Call
  ask_chat : Text → Text → Call
  update_task : Text → Option Text → Option Bool → Call
  update_chat : Text → Option Text → Option Bool → Call
  approve_task : Text → Call
  reject_task : Text → Call
  retry_task : Text → Option Executor → Option Text → Call
  send_follow_up : Text → Text → Call
  get_memories : Call
  get_todos : Call
  get_projects : Call
  create_project : Text → Call
  update_project_prefix : Text → Text → Call
  get_todo : Text → Call
  update_memory : Text → Text → Call
  delete_memory : Text → Call
  approve_memory : Text → Call
  update_todo : Text → TodoPatch → Call
  delete_todo : Text → Call
  comment_on_todo : Text → Text → Call
  get_skills : Call
  get_skill : Text → Call
  create_skill : Option Text → Text → Call
  update_skill : Text → SkillPatch → Call
  delete_skill : Text → Call
  approve_skill : Text → Call
  get_scratchpads : Call
  get_scratchpad : Text → Call
  create_scratchpad : Text → Option Text → Text → Call
  update_scratchpad : Text → ScratchpadPatch → Call
  delete_scratchpad : Text → Call

unfoldable pub request_of : Call → ApiCall
unfolding Tasks.get_runners Tasks.get_tasks Tasks.get_stats Tasks.get_activity Tasks.get_task
    Tasks.create_task Tasks.enhance_prompt Tasks.get_chats Tasks.get_chat Tasks.create_chat
    Tasks.ask_chat Tasks.update_task Tasks.update_chat Tasks.approve_task Tasks.reject_task
    Tasks.retry_task Tasks.send_follow_up Workspace.get_memories Workspace.get_todos
    Workspace.get_projects Workspace.create_project Workspace.update_project_prefix
    Workspace.get_todo Workspace.update_memory Workspace.delete_memory Workspace.approve_memory
    Workspace.update_todo Workspace.delete_todo Workspace.comment_on_todo Documents.get_skills
    Documents.get_skill Documents.create_skill Documents.update_skill Documents.delete_skill
    Documents.approve_skill Documents.get_scratchpads Documents.get_scratchpad
    Documents.create_scratchpad Documents.update_scratchpad Documents.delete_scratchpad
request_of get_runners = Tasks.get_runners
request_of get_tasks = Tasks.get_tasks
request_of get_stats = Tasks.get_stats
request_of get_activity = Tasks.get_activity
request_of (get_task a) = Tasks.get_task a
request_of (create_task a) = Tasks.create_task a
request_of (enhance_prompt a b) = Tasks.enhance_prompt a b
request_of get_chats = Tasks.get_chats
request_of (get_chat a) = Tasks.get_chat a
request_of (create_chat a) = Tasks.create_chat a
request_of (ask_chat a b) = Tasks.ask_chat a b
request_of (update_task a b c) = Tasks.update_task a b c
request_of (update_chat a b c) = Tasks.update_chat a b c
request_of (approve_task a) = Tasks.approve_task a
request_of (reject_task a) = Tasks.reject_task a
request_of (retry_task a b c) = Tasks.retry_task a b c
request_of (send_follow_up a b) = Tasks.send_follow_up a b
request_of get_memories = Workspace.get_memories
request_of get_todos = Workspace.get_todos
request_of get_projects = Workspace.get_projects
request_of (create_project a) = Workspace.create_project a
request_of (update_project_prefix a b) = Workspace.update_project_prefix a b
request_of (get_todo a) = Workspace.get_todo a
request_of (update_memory a b) = Workspace.update_memory a b
request_of (delete_memory a) = Workspace.delete_memory a
request_of (approve_memory a) = Workspace.approve_memory a
request_of (update_todo a b) = Workspace.update_todo a b
request_of (delete_todo a) = Workspace.delete_todo a
request_of (comment_on_todo a b) = Workspace.comment_on_todo a b
request_of get_skills = Documents.get_skills
request_of (get_skill a) = Documents.get_skill a
request_of (create_skill a b) = Documents.create_skill a b
request_of (update_skill a b) = Documents.update_skill a b
request_of (delete_skill a) = Documents.delete_skill a
request_of (approve_skill a) = Documents.approve_skill a
request_of get_scratchpads = Documents.get_scratchpads
request_of (get_scratchpad a) = Documents.get_scratchpad a
request_of (create_scratchpad a b c) = Documents.create_scratchpad a b c
request_of (update_scratchpad a b) = Documents.update_scratchpad a b
request_of (delete_scratchpad a) = Documents.delete_scratchpad a

-- whether the source declares the server function as a read, `createServerFn({ method: "GET" })`
abbrev pub declared_read : Call → Bool
declared_read get_runners = true
declared_read get_tasks = true
declared_read get_stats = true
declared_read get_activity = true
declared_read (get_task _) = true
declared_read get_chats = true
declared_read (get_chat _) = true
declared_read get_memories = true
declared_read get_todos = true
declared_read get_projects = true
declared_read (get_todo _) = true
declared_read get_skills = true
declared_read (get_skill _) = true
declared_read get_scratchpads = true
declared_read (get_scratchpad _) = true
declared_read _ = false

-- the first unit of a text is a slash
abbrev pub is_rooted : Text → Bool
is_rooted [] = false
is_rooted (c ∷ _) = c == b'/'

abbrev pub has_body : ApiCall → Bool
has_body call = elim call.body [ none ↦ false | some _ ↦ true ]

-- The functions that the source declares as reads are exactly those that give `api` no method.
-- No request without a method has a body, and every path begins with a slash.
pub request_of-IsSound :
    (c : Call)
    → (is_read (request_of c) ≡ declared_read c)
      × ((has_body (request_of c) && is_read (request_of c)) ≡ false)
      × (is_rooted (request_of c).path ≡ true)
unfolding request_of text
request_of-IsSound get_runners = ground arith
request_of-IsSound _ = ground arith

-- ===== src/Server/Calls/Tasks.antt =====
-- apps/web/src/lib/lgtm/server.ts: the calls about runners, tasks and chats.
use lgtm.Prelude.{Bool, Option, none, some, [], ◌∷◌, ◌++◌, Text, text}
use lgtm.Types.{str, bool, NewTaskSpec, Executor}
use lgtm.Server.{ApiCall, post, patch}
use lgtm.Server.Calls.Requests.{
  get, act, send, must, may, value_of, executor_value, effort_value, sandbox_value,
}

unfoldable pub get_runners : ApiCall
get_runners = get (text "/runners")

unfoldable pub get_tasks : ApiCall
get_tasks = get (text "/tasks")

unfoldable pub get_stats : ApiCall
get_stats = get (text "/stats")

unfoldable pub get_activity : ApiCall
get_activity = get (text "/activity")

unfoldable pub get_task : Text → ApiCall
get_task id = get (text "/tasks/" ++ id)

-- `data.runner ?? null`
abbrev runner_or_null : Option (Option Text) → Option Text
runner_or_null none = none
runner_or_null (some r) = r

-- `kind` is what the CLI sends for ad-hoc work, and `runner` travels even when nothing is pinned
unfoldable pub create_task : NewTaskSpec → ApiCall
create_task spec = send post (text "/tasks") (
    must (text "base_branch") spec.base_branch
    ∷ (text "executor", some (executor_value spec.executor))
    ∷ may (text "model") value_of spec.model
    ∷ must (text "prompt") spec.prompt
    ∷ may (text "reasoning_effort") effort_value spec.reasoning_effort
    ∷ must (text "repository") spec.repository
    ∷ (text "runner", some (value_of (runner_or_null spec.runner)))
    ∷ may (text "sandbox") sandbox_value spec.sandbox
    ∷ must (text "kind") (text "run")
    ∷ [])

unfoldable pub enhance_prompt : Text → Option Text → ApiCall
enhance_prompt prompt repository =
    send post (text "/enhance")
      (must (text "prompt") prompt ∷ may (text "repository") str repository ∷ [])

unfoldable pub get_chats : ApiCall
get_chats = get (text "/chats")

unfoldable pub get_chat : Text → ApiCall
get_chat id = get (text "/chats/" ++ id)

unfoldable pub create_chat : Text → ApiCall
create_chat question = send post (text "/chats") (must (text "question") question ∷ [])

unfoldable pub ask_chat : Text → Text → ApiCall
ask_chat id question =
    send post (text "/chats/" ++ id ++ text "/ask") (must (text "question") question ∷ [])

unfoldable pub update_task : Text → Option Text → Option Bool → ApiCall
update_task id title archived =
    send patch (text "/tasks/" ++ id)
      (may (text "archived") bool archived ∷ may (text "title") str title ∷ [])

unfoldable pub update_chat : Text → Option Text → Option Bool → ApiCall
update_chat id title archived =
    send patch (text "/chats/" ++ id)
      (may (text "archived") bool archived ∷ may (text "title") str title ∷ [])

unfoldable pub approve_task : Text → ApiCall
approve_task id = act (text "/tasks/" ++ id ++ text "/approve")

unfoldable pub reject_task : Text → ApiCall
reject_task id = act (text "/tasks/" ++ id ++ text "/reject")

-- omitted overrides mean the same runner and the same executor
unfoldable pub retry_task : Text → Option Executor → Option Text → ApiCall
retry_task id executor runner =
    send post (text "/tasks/" ++ id ++ text "/retry")
      (may (text "executor") executor_value executor ∷ may (text "runner") str runner ∷ [])

unfoldable pub send_follow_up : Text → Text → ApiCall
send_follow_up id content =
    send post (text "/tasks/" ++ id ++ text "/message") (must (text "text") content ∷ [])

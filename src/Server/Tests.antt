-- ===== src/Server/Tests.antt =====
-- Calls of the orchestrator with an answer at hand (apps/web/src/lib/lgtm/server.ts).
use lgtm.Prelude.{◌≡◌, true, false, ◌&&◌, text}
use lgtm.Server.{is_read}
use lgtm.Server.Calls.All.{approve_task, request_of, is_rooted, has_body, request_of-IsSound}

request_of-IsSound_example :
    let call = request_of (approve_task (text "t1")) in
    (is_read call ≡ false)
    × ((has_body call && is_read call) ≡ false)
    × (is_rooted call.path ≡ true)
request_of-IsSound_example = request_of-IsSound (approve_task (text "t1"))

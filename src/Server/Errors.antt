-- ===== src/Server/Errors.antt =====
-- `api` of apps/web/src/lib/lgtm/server.ts from the answer on.
use lgtm.Prelude.{◌≡◌, ◌↔◌, true, false, ◌||◌, none, some, Text, is_empty, arith}
use lgtm.Server.{
  ApiCall, Env, Response, Runtime, done, value, not_found, http_request, receive, api, is_ok,
  is_read,
}

-- an environment in which the app is set up, and the orchestrator's answer to a call
abbrev pub configured : Text → Text → Env
configured orchestrator token = record { orchestrator = some orchestrator; token = some token }

module _ (runtime : Runtime) (orchestrator token : Text) (call : ApiCall) (res : Response)
    (set_up : (is_empty orchestrator || is_empty token) ≡ false)
    (answer : runtime.fetch (http_request orchestrator token call) ≡ done res) where
  api-receive : api runtime (configured orchestrator token) call ≡ receive runtime call res
  unfolding api
  api-receive = rw (set_up, answer)

  receive-not_found :
      (receive runtime call res ≡ not_found) ↔ ((res.status ≡ 404) × (is_read call ≡ true))
  unfolding receive
  receive-not_found = ground arith

  -- The page for a missing thing is shown exactly when a call without a method is answered 404;
  -- a 404 to a mutation is an error.
  pub api-not_found :
      (api runtime (configured orchestrator token) call ≡ not_found)
      ↔ ((res.status ≡ 404) × (is_read call ≡ true))
  api-not_found = rw api-receive receive-not_found

  receive-no_content :
      (receive runtime call res ≡ value none)
      ↔ ((is_ok res.status ≡ true) × (is_empty res.body ≡ true))
  unfolding receive
  receive-no_content = ground arith

  -- A call resolves to nothing exactly when the answer is ok and has no body: an empty body is
  -- never handed to the parser, and a refusal is never taken for an empty answer.
  pub api-no_content :
      (api runtime (configured orchestrator token) call ≡ value none)
      ↔ ((is_ok res.status ≡ true) × (is_empty res.body ≡ true))
  api-no_content = rw api-receive receive-no_content

-- ===== src/Server.antt =====
-- apps/web/src/lib/lgtm/server.ts: the calls of the orchestrator. `api` is written over `fetch` and
-- `JSON.parse`, which the runtime gives; `Calls` has the server functions, each as the request that
-- it hands to `api`.
pub mod Calls
pub mod Errors
pub mod Address
mod Tests
use lgtm.Prelude.{
  ℕ, Bool, true, false, not, ◌&&◌, ◌||◌, Option, none, some, List, [], ◌∷◌, ◌++◌, Text, text, trim,
  is_empty, decimal, leb, ltb, ◌==◌, if◌then◌else◌,
}
use lgtm.Types.{JsonValue}

pub data Method : Type 0 where
  post patch delete : Method

-- a member of a request's body; `none` is `undefined`
abbrev pub Member : Type 0
Member = Text × Option JsonValue

-- the arguments of `api`; no method stands for a read
pub record ApiCall : Type 0 where
  pub path : Text
  pub method : Option Method
  pub body : Option (List Member)

pub record Env : Type 0 where
  pub orchestrator : Option Text
  pub token : Option Text

-- what is handed to `fetch`; the body is what `JSON.stringify` writes out
pub record HttpRequest : Type 0 where
  pub url : Text
  pub authorization : Text
  pub content_type : Option Text
  pub method : Text
  pub body : Option (List (Text × JsonValue))

pub record Response : Type 0 where
  pub status : ℕ
  pub body : Text

-- the value that `api` resolves to (`none` is `undefined`), or what it throws
pub data Outcome : Type 0 where
  value : Option JsonValue → Outcome
  not_found : Outcome
  error : Text → Outcome

-- what the runtime gives: `fetch`, which responds or throws with a message, and `JSON.parse`,
-- which throws with one
pub data Attempt (A : Type 0) : Type 0 where
  done : A → Attempt A
  threw : Text → Attempt A

pub record Runtime : Type 0 where
  pub fetch : HttpRequest → Attempt Response
  pub parse : Text → Attempt JsonValue

-- `s.replace(/\/+$/, "")`
unfoldable pub strip_slashes : Text → Text
strip_slashes [] = []
strip_slashes (c ∷ s) =
    let rest = strip_slashes s in if c == b'/' && is_empty rest then [] else c ∷ rest

-- `JSON.stringify` drops undefined members
unfoldable pub wire_members : List Member → List (Text × JsonValue)
wire_members [] = []
wire_members ((key, none) ∷ members) = wire_members members
wire_members ((key, some v) ∷ members) = (key, v) ∷ wire_members members

abbrev pub method_name : Option Method → Text
method_name none = text "GET"
method_name (some post) = text "POST"
method_name (some patch) = text "PATCH"
method_name (some delete) = text "DELETE"

abbrev wire_body : Option (List Member) → Option (List (Text × JsonValue))
wire_body none = none
wire_body (some members) = some (wire_members members)

abbrev content_type_of : Option (List Member) → Option Text
content_type_of none = none
content_type_of (some _) = some (text "application/json")

unfoldable pub http_request : Text → Text → ApiCall → HttpRequest
unfolding strip_slashes wire_members
http_request orchestrator token call = record {
  url = strip_slashes orchestrator ++ text "/api" ++ call.path;
  authorization = text "Bearer " ++ token;
  content_type = content_type_of call.body;
  method = method_name call.method;
  body = wire_body call.body;
}

abbrev pub is_read : ApiCall → Bool
is_read call = elim call.method [ none ↦ true | some _ ↦ false ]

-- `res.ok`
abbrev pub is_ok : ℕ → Bool
is_ok status = leb 200 status && ltb status 300

abbrev parsed : Attempt JsonValue → Outcome
parsed (done v) = value (some v)
parsed (threw message) = error message

unfoldable pub refusal : Text → Response → Text
refusal path res =
    let reason = trim res.body in
    text "orchestrator "
    ++ decimal res.status
    ++ text " on "
    ++ path
    ++ (if is_empty reason then [] else text ": " ++ reason)

-- `api` from the response on
unfoldable pub receive : Runtime → ApiCall → Response → Outcome
receive runtime call res =
    if res.status == 404 && is_read call
    then not_found
    else if not (is_ok res.status)
    then error (refusal call.path res)
    else if is_empty res.body
    then value none
    else parsed (runtime.parse res.body)

abbrev received : Runtime → ApiCall → Attempt Response → Outcome
received runtime call (done res) = receive runtime call res
received runtime call (threw message) = error message

abbrev or_empty : Option Text → Text
or_empty none = []
or_empty (some s) = s

unfoldable pub api : Runtime → Env → ApiCall → Outcome
unfolding receive
api runtime env call =
    let orchestrator = or_empty env.orchestrator in
    let token = or_empty env.token in
    if is_empty orchestrator || is_empty token
    then error (text "LGTM_ORCHESTRATOR and LGTM_TOKEN must be set in .dev.vars")
    else received runtime call (runtime.fetch (http_request orchestrator token call))

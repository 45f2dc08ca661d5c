-- ===== src/Server/Calls/Requests.antt =====
-- apps/web/src/lib/lgtm/server.ts: how a server function builds its request.
use lgtm.Prelude.{Option, none, some, List, [], ◌∷◌, Text, text}
use lgtm.Types.{
  JsonValue, str, null, arr, Items, nil, cons, Executor, claude, codex, TodoStatus, TodoPriority,
  ReasoningEffort, SandboxProfile,
}
use lgtm.Server.{ApiCall, Member, Method, post, delete}

abbrev pub get : Text → ApiCall
get path = record { path = path; method = none; body = none }

abbrev pub act : Text → ApiCall
act path = record { path = path; method = some post; body = none }

abbrev pub remove : Text → ApiCall
remove path = record { path = path; method = some delete; body = none }

abbrev pub send : Method → Text → List Member → ApiCall
send method path members = record { path = path; method = some method; body = some members }

-- a member that is a text, and one that may be undefined or null
abbrev pub must : Text → Text → Member
must key s = (key, some (str s))

abbrev pub value_of : Option Text → JsonValue
value_of none = null
value_of (some s) = str s

abbrev pub may {ℓ} : {A : Type ℓ} → Text → (A → JsonValue) → Option A → Member
may key f none = (key, none)
may key f (some a) = (key, some (f a))

unfoldable pub items_of : List Text → Items
items_of [] = nil
items_of (s ∷ ss) = cons (str s) (items_of ss)

unfoldable pub texts_value : List Text → JsonValue
texts_value ss = arr (items_of ss)

unfoldable pub executor_value : Executor → JsonValue
executor_value claude = str (text "claude")
executor_value codex = str (text "codex")

unfoldable pub effort_value : Option ReasoningEffort → JsonValue
effort_value none = null
effort_value (some ReasoningEffort.low) = str (text "low")
effort_value (some ReasoningEffort.medium) = str (text "medium")
effort_value (some ReasoningEffort.high) = str (text "high")

unfoldable pub sandbox_value : Option SandboxProfile → JsonValue
sandbox_value none = null
sandbox_value (some SandboxProfile.off) = str (text "off")
sandbox_value (some SandboxProfile.standard) = str (text "standard")
sandbox_value (some SandboxProfile.strict) = str (text "strict")
sandbox_value (some SandboxProfile.custom) = str (text "custom")

unfoldable pub status_value : TodoStatus → JsonValue
status_value TodoStatus.open_ = str (text "open")
status_value TodoStatus.in_progress = str (text "in_progress")
status_value TodoStatus.done = str (text "done")

unfoldable pub priority_value : TodoPriority → JsonValue
priority_value TodoPriority.low = str (text "low")
priority_value TodoPriority.medium = str (text "medium")
priority_value TodoPriority.high = str (text "high")

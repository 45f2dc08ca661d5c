-- ===== src/NewTask/Stored.antt =====
-- The model preferences that the page keeps in `localStorage` (apps/web/src/routes/index.tsx).
pub mod Roundtrip
use lgtm.Prelude.{
  Bool, false, Option, none, some, List, [], ◌∷◌, Text, text, text_eq, find, if◌then◌else◌,
}
use lgtm.Types.{ReasoningEffort, low, medium, high, JsonValue, str, obj, Fields, end, field}
use lgtm.Transcript.Events.{member}
use lgtm.NewTask.Efforts.{Configurations, put}
use lgtm.NewTask.Models.{LlmModel, models}

pub record Preferences : Type 0 where
  pub configurations : Configurations
  pub model : LlmModel

unfoldable pub effort_text : ReasoningEffort → Text
effort_text low = text "low"
effort_text medium = text "medium"
effort_text high = text "high"

-- `isReasoningEffort`
unfoldable pub effort_of : Option JsonValue → Option ReasoningEffort
effort_of (some (str s)) =
    if text_eq s (text "low")
    then some low
    else if text_eq s (text "medium")
    then some medium
    else if text_eq s (text "high")
    then some high
    else none
effort_of _ = none

abbrev pub member_of : Text → Option JsonValue → Option JsonValue
member_of key (some (obj fields)) = member key fields
member_of key _ = none

abbrev pub is_named : Option JsonValue → LlmModel → Bool
is_named (some (str s)) m = text_eq m.value s
is_named _ m = false

abbrev pub put_some : Text → Option ReasoningEffort → Configurations → Configurations
put_some key none acc = acc
put_some key (some effort) acc = put key effort acc

-- the loop over `MODELS`
unfoldable pub collect : Option JsonValue → List LlmModel → Configurations → Configurations
collect stored [] acc = acc
collect stored (m ∷ ms) acc =
    collect stored ms (put_some m.value (effort_of (member_of m.value stored)) acc)

abbrev with_model : Configurations → Option LlmModel → Option Preferences
with_model configurations none = none
with_model configurations (some m) = some (record { configurations = configurations; model = m })

-- `readModelPreferences`, of the models given
unfoldable pub read_from : List LlmModel → Option JsonValue → Option Preferences
read_from ms parsed =
    with_model (collect (member_of (text "configurations") parsed) ms [])
      (find (is_named (member_of (text "model") parsed)) ms)

unfoldable pub read_preferences : Option JsonValue → Option Preferences
read_preferences parsed = read_from models parsed

unfoldable pub fields_of : Configurations → Fields
fields_of [] = end
fields_of ((key, effort) ∷ rest) = field key (str (effort_text effort)) (fields_of rest)

-- what `saveModelPreferences` stores
unfoldable pub saved : Text → Configurations → JsonValue
saved model configurations = obj (
    field (text "configurations") (obj (fields_of configurations))
      (field (text "model") (str model) end))

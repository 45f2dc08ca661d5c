-- ===== src/NewTask/Efforts.antt =====
-- The reasoning effort that was set for each model (apps/web/src/routes/index.tsx), by the model's
-- value.
use lgtm.Prelude.{Option, none, some, List, [], ◌∷◌, Text, text_eq, if◌then◌else◌}
use lgtm.Types.{ReasoningEffort}

-- `Record<string, ReasoningEffort>`
abbrev pub Configurations : Type 0
Configurations = List (Text × ReasoningEffort)

-- `configurations[value]`
abbrev pub lookup : Text → Configurations → Option ReasoningEffort
lookup key [] = none
lookup key ((k, effort) ∷ rest) = if text_eq k key then some effort else lookup key rest

-- `{ ...configurations, [key]: effort }`
unfoldable pub put : Text → ReasoningEffort → Configurations → Configurations
put key effort [] = (key, effort) ∷ []
put key effort ((k, e) ∷ rest) =
    let later = put key effort rest in if text_eq k key then (k, effort) ∷ rest else (k, e) ∷ later

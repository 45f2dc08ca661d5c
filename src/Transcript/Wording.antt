-- ===== src/Transcript/Wording.antt =====
-- apps/web/src/components/task-transcript.tsx: the texts of the rows.
use lgtm.Prelude.{
  ℕ, ◌+◌, ◌*◌, ◌/◌, ◌%◌, Option, none, some, List, [], ◌∷◌, ◌++◌, map, Text, text, is_empty, join,
  decimal, leb, ltb, ◌==◌, if◌then◌else◌,
}
use lgtm.Types.{EventBody}
use lgtm.Transcript.Events.{str_of, strings, is_true}
use lgtm.Transcript.Items.{Item, marker, muted, warn}

-- `by || null`
abbrev pub or_null : Text → Option Text
or_null [] = none
or_null (c ∷ s) = some (c ∷ s)

-- `${n}` of a number or null
unfoldable pub number_text : Option ℕ → Text
number_text none = text "null"
number_text (some n) = decimal n

abbrev pub or_zero : Option ℕ → ℕ
or_zero none = 0
or_zero (some n) = n

-- `x.toFixed(1)` of `n / d`: the nearest tenth, and the larger of two
unfoldable pub to_fixed1 : ℕ → ℕ → Text
to_fixed1 n d =
    let tenths = (2 * 10 * n + d) / (2 * d) in
    decimal (tenths / 10) ++ text "." ++ decimal (tenths % 10)

-- `Math.round(n / 1024)`
unfoldable pub kilobytes : ℕ → ℕ
kilobytes n = (n + 512) / 1024

unfoldable pub format_bytes : ℕ → Text
unfolding to_fixed1 kilobytes
format_bytes size =
    if leb (1024 * 1024) size
    then to_fixed1 size (1024 * 1024) ++ text " MB"
    else if leb 1024 size
    then decimal (kilobytes size) ++ text " KB"
    else decimal size ++ text " B"

-- `s.replace(/_/g, " ")`
abbrev pub spaced : Text → Text
spaced s = map (λ c. if c == b'_' then 32 else c) s

unfoldable pub policy_marker : ℕ → EventBody → Item
policy_marker at event =
    let allowed = is_true event (text "allowed") in
    let reasons = join (text "; ") (strings event (text "reasons")) in
    marker at
      (text "Policy "
        ++ (if allowed then text "allowed" else text "blocked")
        ++ text " "
        ++ str_of event (text "action")
        ++ (if is_empty reasons then [] else text ": " ++ reasons))
      (if allowed then muted else warn)

unfoldable pub started_parts : ℕ → Text → List Text
started_parts skills model =
    text "Run started"
    ∷ ((if is_empty model then [] else model ∷ [])
        ++ (if ltb 0 skills
            then (decimal skills ++ text " skill" ++ (if skills == 1 then [] else text "s")) ∷ []
            else []))

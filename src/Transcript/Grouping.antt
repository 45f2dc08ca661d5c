-- ===== src/Transcript/Grouping.antt =====
-- `groupActivity` and `activityLabel` of apps/web/src/components/task-transcript.tsx.
pub mod Runs
use lgtm.Prelude.{
  ℕ, ◌-◌, List, [], ◌∷◌, ◌++◌, Bool, true, false, Text, text, length, keep, join, decimal, ltb,
  ◌==◌, if◌then◌else◌,
}
use lgtm.Transcript.Items.{Item, tool, Grouped, single, activity, Tool, ToolItem, command, file}

-- what the last row and the next item become
unfoldable pub grouped_with : Grouped → Item → List Grouped
grouped_with (activity at tools) (tool t) = activity at (tools ++ t ∷ []) ∷ []
grouped_with (single (tool t₀)) (tool t) = activity t₀.at (t₀ ∷ t ∷ []) ∷ []
grouped_with last item = last ∷ single item ∷ []

-- one round of the loop, at the end of the list
unfoldable pub push_grouped : List Grouped → Item → List Grouped
unfolding grouped_with
push_grouped [] item = single item ∷ []
push_grouped (last ∷ []) item = grouped_with last item
push_grouped (x ∷ y ∷ rest) item = x ∷ push_grouped (y ∷ rest) item

unfoldable pub group_from : List Grouped → List Item → List Grouped
unfolding push_grouped
group_from grouped [] = grouped
group_from grouped (item ∷ items) = group_from (push_grouped grouped item) items

unfoldable pub group_activity : List Item → List Grouped
unfolding group_from
group_activity items = group_from [] items

abbrev pub is_command : Tool → Bool
is_command command = true
is_command file = false

abbrev pub plural_of : ℕ → Text → Text → Text
plural_of n one many = if n == 1 then one else many

unfoldable pub activity_label : List ToolItem → Text
activity_label tools =
    let commands = length (keep (λ t. is_command t.tool) tools) in
    let files = length tools - commands in
    join (text " · ") (
      (if ltb 0 commands
        then (text "Ran "
            ++ decimal commands
            ++ text " "
            ++ plural_of commands (text "command") (text "commands"))
          ∷ []
        else [])
      ++ (if ltb 0 files
          then ((if ltb 0 commands then text "touched" else text "Touched")
              ++ text " "
              ++ decimal files
              ++ text " "
              ++ plural_of files (text "file") (text "files"))
            ∷ []
          else []))

-- ===== src/Documents/Details.antt =====
-- What the page of a document shows beside its text: the property list and the picker of its panel,
-- the header with its menu, and the line about saving (apps/web/src/routes/skills_.$id.tsx,
-- apps/web/src/routes/scratchpads_.$id.tsx).
pub mod Picker
use lgtm.Prelude.{
  ℕ, Bool, true, false, ◌==◌, Option, none, some, List, [], ◌∷◌, ◌++◌, Text, text, text_eq,
  is_empty, trim, any, if◌then◌else◌,
}
use lgtm.Types.{
  Project, Skill, SkillFile, Scratchpad, MemoryVerification, agent_proposed, user_approved,
}
use lgtm.Autosave.{SaveState, idle, saving, saved}
use lgtm.Documents.{picked, every_repository, repository_name, repositories}
use lgtm.Documents.Skills.{skill_body}

-- `SAVE_LABEL`
unfoldable pub save_label : SaveState → Text
save_label idle = []
save_label saving = text "Saving…"
save_label saved = text "Saved"

-- an entry of the property list, with its value
pub data Detail : Type 0 where
  in_repository : Text → Detail
  created edited : ℕ → Detail
  from_origin : Text → Detail
  with_files : List (Text × Bool) → Detail
  proposed_by_task : Text → Detail
  tagged : List Text → Detail

abbrev file_names : List SkillFile → List (Text × Bool)
file_names [] = []
file_names (file ∷ files) = (file.path, file.binary) ∷ file_names files

abbrev edited_detail : ℕ → ℕ → List Detail
edited_detail created_at updated_at =
    if updated_at == created_at then [] else edited updated_at ∷ []

abbrev when_some : (Text → Detail) → Option Text → List Detail
when_some detail none = []
when_some detail (some v) = detail v ∷ []

abbrev files_detail : List SkillFile → List Detail
files_detail [] = []
files_detail (file ∷ files) = with_files (file_names (file ∷ files)) ∷ []

unfoldable pub skill_details : List Project → Skill → List Detail
skill_details projects skill =
    (in_repository (repository_name projects (picked skill.repository))
      ∷ created skill.created_at
      ∷ [])
    ++ edited_detail skill.created_at skill.updated_at
    ++ when_some from_origin skill.origin
    ++ files_detail skill.files
    ++ when_some proposed_by_task skill.proposed_by

unfoldable pub pad_details : List Project → Scratchpad → List Detail
pad_details projects pad =
    (in_repository (repository_name projects (picked pad.repository)) ∷ created pad.created_at ∷ [])
    ++ edited_detail pad.created_at pad.updated_at
    ++ tagged pad.tags ∷ []

-- the choices of the picker
unfoldable pub options : List Project → List Text
options projects = every_repository ∷ repositories projects

-- whether the picker checks one of its choices
unfoldable pub is_checked : List Project → Option Text → Bool
unfolding options
is_checked projects repository =
    any (λ option. text_eq option (picked repository)) (options projects)

-- `skill.verification === "agent_proposed"`
abbrev pub is_proposed : MemoryVerification → Bool
is_proposed agent_proposed = true
is_proposed user_approved = false

abbrev delete_label : Bool → Text
delete_label armed = if armed then text "Confirm delete" else text "Delete"

-- the items of the menu, and whether the badge stands behind the name
unfoldable pub skill_items : Skill → Bool → List Text
skill_items skill armed =
    (if is_proposed skill.verification then text "Approve" ∷ [] else []) ++ delete_label armed ∷ []

unfoldable pub skill_badge : Skill → Option Text
skill_badge skill = if is_proposed skill.verification then some (text "proposed") else none

unfoldable pub pad_items : Scratchpad → Bool → List Text
pad_items pad armed =
    (if pad.archived then text "Unarchive" else text "Archive") ∷ delete_label armed ∷ []

unfoldable pub pad_badge : Scratchpad → Option Text
pad_badge pad = if pad.archived then some (text "archived") else none

-- whether the editor takes the focus when the page opens
unfoldable pub skill_focuses : Skill → Bool
skill_focuses skill = is_empty (trim (skill_body skill.content))

unfoldable pub pad_focuses : Scratchpad → Bool
pad_focuses pad = is_empty pad.content

-- ===== src/Documents/Skills.antt =====
-- The callbacks of a skill's page (apps/web/src/routes/skills_.$id.tsx), and how the page takes the
-- file of a skill apart.
use lgtm.Prelude.{
  Bool, ◌-◌, Option, none, some, List, [], ◌∷◌, ◌++◌, Text, text, text_eq, is_empty, trim_end,
  split, join, length, take, drop, if◌then◌else◌,
}
use lgtm.Types.{Skill, Project}
use lgtm.Server.Calls.{no_skill_patch, update_skill, approve_skill, delete_skill}
use lgtm.Documents.{Run, picked, repository_of, repository_name, edited, on_text, press_delete}

-- the lines behind the first that closes the frontmatter, joined again
unfoldable pub find_body : List Text → Option Text
find_body [] = none
find_body (line ∷ lines) =
    let later = find_body lines in
    if text_eq (trim_end line) (text "---") then some (join (b'\n' ∷ []) lines) else later

abbrev or_content : Text → Option Text → Text
or_content content none = content
or_content content (some body) = body

unfoldable pub skill_body : Text → Text
skill_body content = or_content content (find_body (drop 1 (split b'\n' content)))

-- whatever the body is not
unfoldable pub frontmatter : Text → Text
frontmatter content = take (length content - length (skill_body content)) content

-- what "Copy" puts on the clipboard
unfoldable pub skill_file : Skill → Text → Text
skill_file skill latest = frontmatter skill.content ++ latest

unfoldable pub set_repository : List Project → Skill → Text → Option Run
set_repository projects skill repository =
    if text_eq repository (picked skill.repository)
    then none
    else some (record {
      action = text "repository";
      call =
          update_skill skill.id
            (record no_skill_patch { repository = some (repository_of repository) });
      message =
          if is_empty repository
          then text "Skill applies to every repository"
          else text "Skill moved to " ++ repository_name projects repository;
    })

unfoldable pub rename : Skill → Text → Option Run × Text
rename skill typed =
    let (name, field) = edited skill.name typed in
    (
      on_text
          (λ s. record {
            action = text "name";
            call = update_skill skill.id (record no_skill_patch { name = some s });
            message = text "Skill renamed";
          })
          name,
      field,
    )

unfoldable pub describe : Skill → Text → Option Run × Text
describe skill typed =
    let (description, field) = edited skill.description typed in
    (
      on_text
          (λ s. record {
            action = text "description";
            call = update_skill skill.id (record no_skill_patch { description = some s });
            message = text "Description updated";
          })
          description,
      field,
    )

unfoldable pub approve : Skill → Run
approve skill = record {
  action = text "approve";
  call = approve_skill skill.id;
  message = text "Skill approved";
}

unfoldable pub on_delete : Skill → Bool → Bool × Option Run
on_delete skill armed =
    press_delete
      (record {
        action = text "delete";
        call = delete_skill skill.id;
        message = text "Skill deleted";
      })
      armed

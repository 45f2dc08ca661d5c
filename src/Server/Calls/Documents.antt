-- ===== src/Server/Calls/Documents.antt =====
-- apps/web/src/lib/lgtm/server.ts: the calls about skills and scratchpads.
use lgtm.Prelude.{Bool, Option, none, some, List, [], ◌∷◌, ◌++◌, Text, text}
use lgtm.Types.{str, bool}
use lgtm.Server.{ApiCall, post, patch}
use lgtm.Server.Calls.Requests.{get, act, remove, send, must, may, value_of, texts_value}

unfoldable pub get_skills : ApiCall
get_skills = get (text "/skills")

unfoldable pub get_skill : Text → ApiCall
get_skill id = get (text "/skills/" ++ id)

unfoldable pub create_skill : Option Text → Text → ApiCall
create_skill repository content =
    send post (text "/skills")
      (must (text "content") content ∷ (text "repository", some (value_of repository)) ∷ [])

pub record SkillPatch : Type 0 where
  pub name : Option Text
  pub description : Option Text
  pub body : Option Text
  pub repository : Option (Option Text)

abbrev pub no_skill_patch : SkillPatch
no_skill_patch = record { name = none; description = none; body = none; repository = none }

unfoldable pub update_skill : Text → SkillPatch → ApiCall
update_skill id patch_of = send patch (text "/skills/" ++ id) (
    may (text "body") str patch_of.body
    ∷ may (text "description") str patch_of.description
    ∷ may (text "name") str patch_of.name
    ∷ may (text "repository") value_of patch_of.repository
    ∷ [])

unfoldable pub delete_skill : Text → ApiCall
delete_skill id = remove (text "/skills/" ++ id)

unfoldable pub approve_skill : Text → ApiCall
approve_skill id = act (text "/skills/" ++ id ++ text "/approve")

unfoldable pub get_scratchpads : ApiCall
get_scratchpads = get (text "/scratchpads")

unfoldable pub get_scratchpad : Text → ApiCall
get_scratchpad id = get (text "/scratchpads/" ++ id)

unfoldable pub create_scratchpad : Text → Option Text → Text → ApiCall
create_scratchpad title repository content = send post (text "/scratchpads") (
    must (text "title") title
    ∷ may (text "repository") str repository
    ∷ must (text "content") content
    ∷ [])

pub record ScratchpadPatch : Type 0 where
  pub title : Option Text
  pub content : Option Text
  pub archived : Option Bool
  pub repository : Option (Option Text)
  pub tags : Option (List Text)

abbrev pub no_scratchpad_patch : ScratchpadPatch
no_scratchpad_patch = record {
  title = none;
  content = none;
  archived = none;
  repository = none;
  tags = none;
}

unfoldable pub update_scratchpad : Text → ScratchpadPatch → ApiCall
update_scratchpad id patch_of = send patch (text "/scratchpads/" ++ id) (
    may (text "archived") bool patch_of.archived
    ∷ may (text "content") str patch_of.content
    ∷ may (text "repository") value_of patch_of.repository
    ∷ may (text "tags") texts_value patch_of.tags
    ∷ may (text "title") str patch_of.title
    ∷ [])

unfoldable pub delete_scratchpad : Text → ApiCall
delete_scratchpad id = remove (text "/scratchpads/" ++ id)

-- ===== src/Documents/Pad.antt =====
-- The callbacks of a scratchpad's page (apps/web/src/routes/scratchpads_.$id.tsx).
use lgtm.Prelude.{
  Bool, not, Option, none, some, List, [], ◌++◌, Text, text, text_eq, is_empty, trim_end,
  if◌then◌else◌,
}
use lgtm.Types.{Scratchpad, Project}
use lgtm.Server.Calls.{no_scratchpad_patch, update_scratchpad, delete_scratchpad}
use lgtm.Documents.{Run, picked, repository_of, repository_name, edited, on_text, press_delete}

-- `encodeURIComponent` is the runtime's
unfoldable pub link : (Text → Text) → Scratchpad → Text
link encode pad =
    text "lgtm://scratchpads/"
    ++ elim pad.repository [ none ↦ [] | some r ↦ encode r ++ text "/" ]
    ++ pad.id

unfoldable pub markdown : Scratchpad → Text → Text
markdown pad latest = text "# " ++ pad.title ++ text "\n\n" ++ trim_end latest ++ text "\n"

unfoldable pub archive : Scratchpad → Run
archive pad = record {
  action = text "archive";
  call =
      update_scratchpad pad.id (record no_scratchpad_patch { archived = some (not pad.archived) });
  message = if pad.archived then text "Scratchpad restored" else text "Scratchpad archived";
}

unfoldable pub set_repository : List Project → Scratchpad → Text → Option Run
set_repository projects pad repository =
    if text_eq repository (picked pad.repository)
    then none
    else some (record {
      action = text "repository";
      call =
          update_scratchpad pad.id
            (record no_scratchpad_patch { repository = some (repository_of repository) });
      message =
          if is_empty repository
          then text "Scratchpad applies to every repository"
          else text "Scratchpad moved to " ++ repository_name projects repository;
    })

unfoldable pub rename : Scratchpad → Text → Option Run × Text
rename pad typed =
    let (title, field) = edited pad.title typed in
    (
      on_text
          (λ t. record {
            action = text "title";
            call = update_scratchpad pad.id (record no_scratchpad_patch { title = some t });
            message = text "Scratchpad renamed";
          })
          title,
      field,
    )

unfoldable pub set_tags : Scratchpad → List Text → Text → Run
set_tags pad tags message = record {
  action = text "tags";
  call = update_scratchpad pad.id (record no_scratchpad_patch { tags = some tags });
  message = message;
}

unfoldable pub on_delete : Scratchpad → Bool → Bool × Option Run
on_delete pad armed =
    press_delete
      (record {
        action = text "delete";
        call = delete_scratchpad pad.id;
        message = text "Scratchpad deleted";
      })
      armed

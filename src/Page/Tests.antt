-- ===== src/Page/Tests.antt =====
-- A run of a document page: typing, leaving before the debounce ends, and the requests.
use lgtm.Types.{str}
use lgtm.Prelude.{
  if◌then◌else◌, ◌||◌, ◌==◌, true, false, ◌≡◌, refl, none, some, List, [], ◌∷◌, arith, Text, text,
  text_eq, join, last_or,
}
use lgtm.Server.{ApiCall}
use lgtm.Server.Calls.{no_skill_patch, update_skill}
use lgtm.Autosave
use lgtm.Autosave.{Document, saved}
use lgtm.Editor
use lgtm.Editor.{update, timeout}
use lgtm.Page.{Event, editor, resolved, saved_shown, open_page, step, run}
use lgtm.Page.Saved.{saved_after_unmount}
use lgtm.Page.Stored.{document_saver, document_kept}
use lgtm.Writer.Saver
use lgtm.Writer.Saver.{PageEvent, edited, SavedPage}

abbrev write : Text → ApiCall
write content = update_skill (text "s1") (record no_skill_patch { body = some content })

abbrev draft : Text
draft = b'd' ∷ []

abbrev final : Text
final = b'd' ∷ b'f' ∷ []

abbrev session : List Event
session = editor (update draft []) ∷ editor timeout ∷ editor (update final []) ∷ []

abbrev landing : List Event
landing = resolved ∷ resolved ∷ saved_shown ∷ []

saved_after_unmount_example :
    let p = run write session (open_page write []) in
    let d = (run write landing (step write (editor Editor.unmount) p)).store in
    (last_or (write []) d.sent ≡ write final) × (d.in_flight ≡ none) × (d.queued ≡ none)
saved_after_unmount_example = saved_after_unmount write [] session landing refl refl (omega arith)

-- a request that fails after it reached the orchestrator, an edit, and a request that succeeds
abbrev stormy : List PageEvent
stormy =
    edited (update draft [])
    ∷ edited timeout
    ∷ PageEvent.rejected (text "offline") true
    ∷ edited (update final [])
    ∷ edited timeout
    ∷ PageEvent.resolved
    ∷ []

-- the body of a skill in its normal form: no empty line leads it, and a line end ends it
abbrev drop_lines : Text → Text
drop_lines [] = []
drop_lines (c ∷ t) = if c == 10 || c == 13 then drop_lines t else c ∷ t

abbrev end_line : Text → Text
end_line [] = []
end_line (c ∷ []) = if c == 10 then c ∷ [] else c ∷ 10 ∷ []
end_line (c ∷ d ∷ t) = c ∷ end_line (d ∷ t)

abbrev filed : Text → Text
filed t = end_line (drop_lines t)

-- what a request makes of the body of the skill: its first member, where that is a text
abbrev body_of : ApiCall → Text → Text
body_of call old = elim call.body [ some ((_, some (str content)) ∷ _) ↦ filed content | _ ↦ old ]

writes : (content old : Text) → body_of (write content) old ≡ filed content
unfolding update_skill
writes content old = refl

abbrev after_storm : SavedPage (Document ApiCall)
after_storm =
    let S = document_saver filed write in
    Saver.run S write body_of stormy (Saver.open_page S write body_of [])

storm-saved : (after_storm.store.save_state ≡ saved) × (after_storm.view.timer ≡ false)
unfolding Autosave.land Autosave.save_round Autosave.save Editor.step Editor.flush text_eq
    Editor.mount Editor.signature join Editor.read_headings Autosave.on_markdown Autosave.fail
    Autosave.open_document Saver.run Saver.open_page Saver.step
storm-saved = (refl, refl)

document_kept_example : after_storm.kept ≡ b'd' ∷ b'f' ∷ 10 ∷ []
document_kept_example =
    document_kept filed write body_of writes [] stormy storm-saved.0 storm-saved.1

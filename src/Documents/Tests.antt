-- ===== src/Documents/Tests.antt =====
-- A skill's file and the fields of the document pages (apps/web/src/routes/skills_.$id.tsx and
-- apps/web/src/routes/scratchpads_.$id.tsx).
use lgtm.Server.Calls.{delete_skill}
use lgtm.Documents.Menu.{
  mounted, MenuEvent, menu_changed, delete_pressed, settled, set_menu_open, press_delete, start,
  settle, step, run,
}
use lgtm.Documents.Menu.Deleting.{bit, deletes, run-deletes}
use lgtm.Prelude.{
  if◌then◌else◌, ◌||◌, ◌≤◌, ◌*◌, true, List, some, ◌≡◌, refl, none, some, [], ◌∷◌, ◌++◌, Text, text,
  text_eq, trim, trim_end, trim_start, is_space, split, join,
}
use lgtm.Documents.{Run, collapse, normalize, edited, escape, commit_or_restore}
use lgtm.Documents.Skills.{find_body, skill_body, frontmatter}
use lgtm.Documents.Frontmatter.{frontmatter-skill_body}
use lgtm.Documents.Neat.{blank, is_neat, edited-escape}

-- a file whose body is the one line "b"
abbrev file : Text
file = text "---\nname: a\n---\nb"

file-body : skill_body file ≡ text "b"
unfolding skill_body find_body split join text text_eq trim_end trim_start is_space
file-body = refl

frontmatter-skill_body_example : frontmatter file ++ skill_body file ≡ file
frontmatter-skill_body_example = frontmatter-skill_body file

abbrev typed : Text
typed = b' ' ∷ b'a' ∷ b'\n' ∷ b' ' ∷ b'b' ∷ []

typed-edited : (edited (b'a' ∷ []) typed).0 ≡ some (b'a' ∷ b' ' ∷ b'b' ∷ [])
unfolding edited normalize collapse trim trim_end trim_start is_space text_eq
typed-edited = refl

-- two spaces, as an agent may write them
abbrev loose : Text
loose = b'a' ∷ b' ' ∷ b' ' ∷ b'b' ∷ []

loose-edited : (edited loose loose).0 ≡ some (b'a' ∷ b' ' ∷ b'b' ∷ [])
unfolding edited normalize collapse trim trim_end trim_start is_space text_eq
loose-edited = refl

edited-escape_example :
    ((edited loose (commit_or_restore escape loose (b'c' ∷ [])).0).0
      ≡ (if blank loose || is_neat loose then none else some (normalize loose)))
    × (is_neat (normalize loose) ≡ true)
    × (blank (normalize loose) ≡ blank loose)
edited-escape_example = edited-escape loose (b'c' ∷ [])

-- Delete pressed twice in the open menu, and both requests succeed
abbrev deletion : List MenuEvent
deletion =
    menu_changed true ∷ delete_pressed ∷ delete_pressed ∷ settled 0 true ∷ settled 0 true ∷ []

abbrev delete_run : Run
delete_run = record {
  action = text "delete";
  call = delete_skill (text "s");
  message = text "Skill deleted";
}

deleted-gone : (run delete_run deletion mounted).gone ≡ true
unfolding run step set_menu_open press_delete start settle text text_eq
deleted-gone = refl

run-deletes_example :
    let s = run delete_run deletion mounted in
    (bit s.gone ≤ deletes s.started) × (2 * deletes s.started ≤ 2)
run-deletes_example = run-deletes delete_run deletion refl

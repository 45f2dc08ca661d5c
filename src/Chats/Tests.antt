-- ===== src/Chats/Tests.antt =====
-- A chat in which a question is asked (apps/web/src/routes/chats.$id.tsx), and what its last answer
-- refers to (apps/web/src/components/answer-references.tsx).
use lgtm.Prelude.{
  ◌≡◌, refl, true, false, ◌||◌, none, text_eq, List, [], ◌∷◌, ◌++◌, map, Text, text, trim,
  trim_start, trim_end, is_space, keep, take,
}
use lgtm.Types.{
  Chat, ChatTurn, ChatRole, person, agent, RunnerStatus, Task, Todo, TodoStatus, TodoPriority,
  claude,
}
use lgtm.Server.Calls.{ask_chat}
use lgtm.Chats.{
  Conversation, typed, press_send, press_brief, brief_resolves, resting, is_busy, ends_with_person,
  run,
}
use lgtm.Chats.Endings.{refused, ends, box, shown, written, send-ending}
use lgtm.Chats.Moves.{
  Destination, to_chat, to_home, to_other, at_chat, at_composer, here, there, goes, move, moves,
}
use lgtm.Chats.Moves.Carried.{brief-follows}
use lgtm.Chats.References.{Referenced, references_in, has, includes}
use lgtm.Chats.References.Ids.{is_short_id, runs, references_in-runs}

abbrev turn : ChatRole → Text → ChatTurn
turn role said = record {
  at = 1;
  failed = false;
  refs = [];
  role = role;
  steps = [];
  text = said;
  worked_ms = 0;
}

abbrev turns : List ChatTurn
turns = turn person (text "what runs?") ∷ turn agent (text "task 0a1b2c3d, on my box") ∷ []

abbrev open_chat : Conversation
open_chat = record {
  chat = record {
    archived = false;
    created_at = 1;
    created_by = none;
    id = text "c";
    title = [];
    turns = turns;
    workspace = none;
  };
  draft = b' ' ∷ b'w' ∷ [];
  busy = none;
  stage = resting;
  calls = [];
  toasts = [];
  handed = none;
}

-- the question is refused while the next one is typed
send-ending_example :
    let s' =
      run
        (press_send ∷ (map typed (text "and" ∷ []) ++ ends (refused (text "offline"))))
        open_chat in
    (is_busy s' ≡ false)
    × (s'.draft ≡ box (trim (b' ' ∷ b'w' ∷ [])) (text "and") (refused (text "offline")))
    × (s'.toasts ≡ [] ++ shown (refused (text "offline")))
    × (s'.calls ≡ [] ++ ask_chat (text "c") (trim (b' ' ∷ b'w' ∷ [])) ∷ [])
unfolding trim trim_start trim_end is_space ends_with_person
send-ending_example =
    send-ending (text "and" ∷ []) (refused (text "offline")) open_chat refl refl refl

abbrev machine : Text → RunnerStatus
machine name = record {
  info = record {
    arch = [];
    capabilities = [];
    cpu_cores = 4;
    ephemeral = false;
    executors = claude ∷ [];
    memory_mb = 1;
    name = name;
    os = [];
    slots = 1;
  };
  running = [];
}

abbrev todo : Todo
todo = record {
  assignee = none;
  blockers = [];
  created_at = 1;
  created_by = none;
  description = [];
  display_id = text "WEB-1";
  id = text "0a1b2c3d4e";
  number = 1;
  priority = TodoPriority.low;
  repository = none;
  status = TodoStatus.open_;
  tags = [];
  task = none;
  title = text "t";
  workspace = none;
}

abbrev everything : Referenced
everything = record {
  runners = machine (b'a' ∷ []) ∷ machine (b'm' ∷ b' ' ∷ b'b' ∷ []) ∷ [];
  tasks = [];
  todos = todo ∷ [];
}

references_in-runs_example :
    let ids = keep is_short_id (runs (text "task 0a1b2c3d, on my box")) in
    let found = references_in (text "task 0a1b2c3d, on my box") everything in
    (found.tasks ≡ keep (λ (task : Task). has ids (take 8 task.id)) [])
    × (found.todos
        ≡ keep
            (λ (todo : Todo).
              has ids (take 8 todo.id)
              || includes (text "task 0a1b2c3d, on my box") todo.display_id)
            everything.todos)
references_in-runs_example = references_in-runs (text "task 0a1b2c3d, on my box") everything

abbrev next_chat : Chat
next_chat = record open_chat.chat { id = text "d" }

-- a brief is written while the reader goes to another chat, home, and out of there
abbrev walk : List Destination
walk = to_chat next_chat ∷ to_home ∷ to_other ∷ []

brief-follows_example :
    (move true (there 0 (brief_resolves (text "do it"))) (
      moves true
        (here press_brief ∷ map goes walk)
        (record { place = at_chat open_chat; gone = [] }))).place
    ≡ at_composer (text "do it")
unfolding text_eq text
brief-follows_example = brief-follows true walk (written (text "do it")) open_chat refl refl

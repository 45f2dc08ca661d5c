-- ===== src/NewTask/Tests.antt =====
-- A task composed for one of two runners, and preferences stored and read
-- (apps/web/src/routes/index.tsx).
use lgtm.Prelude.{
  ◌≡◌, ◌≢◌, ◌↔◌, refl, false, true, none, some, List, [], ◌∷◌, arith, Text, text, text_eq, trim,
  trim_start, trim_end, is_space,
}
use lgtm.Types.{Executor, claude, codex, RunnerStatus, NewTaskSpec, high}
use lgtm.NewTask.{Page, busy, submission, change_runner, change_model, change_model_configuration}
use lgtm.NewTask.{change_branch}
use lgtm.NewTask.Branches as Branches
use lgtm.NewTask.Branches.{
  Switcher, SwitcherEvent, toggled, picked_custom, has_branch, pick_custom, can_use_custom_branch,
  select_branch,
}
use lgtm.NewTask.Branches.Picked.{HasBranches}
use lgtm.NewTask.Session.{begin_enhance}
use lgtm.NewTask.Session.Buttons.{CallsOnce, send, can_send, can_enhance, buttons-call}
use lgtm.NewTask.Models.{LlmModel, openai, models}
use lgtm.NewTask.Restore.{Remembers, revisited, revisited-Remembers}
use lgtm.NewTask.Session.{
  Home, Event, chat, press_enhance, press_submit, enter, resolved, rejected, run,
}
use lgtm.NewTask.Session.Requests.{Balances, run-Balances}
use lgtm.NewTask.Submission.{serves, chosen, submission-serves}
use lgtm.NewTask.Pickers.{runner_options, offered_runners}
use lgtm.NewTask.Pickers.Routed.{runner_of, picked-runner}

abbrev luna : LlmModel
luna = record {
  context_tokens = 1000000;
  description = [];
  executor = codex;
  input_price = 2;
  intelligence = 52;
  label = text "5.6 Luna";
  model = text "gpt-5.6-luna";
  output_price = 12;
  output_tokens_per_second = 120;
  provider = openai;
  value = text "gpt-5.6-luna";
}

abbrev machine : Text → List Executor → RunnerStatus
machine name executors = record {
  info = record {
    arch = text "arm64";
    capabilities = [];
    cpu_cores = 4;
    ephemeral = false;
    executors = executors;
    memory_mb = 1;
    name = name;
    os = text "linux";
    slots = 1;
  };
  running = [];
}

abbrev runners : List RunnerStatus
runners = machine (b'a' ∷ []) (claude ∷ []) ∷ machine (b'b' ∷ []) (codex ∷ []) ∷ []

abbrev composed : Page
composed = record {
  branch = [];
  branches = [];
  configurations = [];
  draft = b' ' ∷ b'p' ∷ [];
  model = luna;
  pending = none;
  repository = b'r' ∷ [];
  runner = some (b'b' ∷ []);
  stored = none;
  storage_works = true;
}

abbrev asked : NewTaskSpec
asked = record {
  base_branch = text "main";
  executor = codex;
  model = some (some (text "gpt-5.6-luna"));
  prompt = b'p' ∷ [];
  reasoning_effort = some (some high);
  repository = b'r' ∷ [];
  runner = some (some (b'b' ∷ []));
  sandbox = none;
}

abbrev careful : Page
careful = record composed { configurations = (text "gpt-5.6-luna", high) ∷ [] }

careful-submission : submission runners careful ≡ some asked
unfolding submission trim trim_start trim_end is_space text_eq text
careful-submission = refl

submission-serves_example :
    (asked.prompt ≢ [])
    × (asked.repository ≢ [])
    × (asked.base_branch ≢ [])
    × (busy careful ≡ false)
    × (serves runners codex (chosen asked.runner) ≡ true)
submission-serves_example = submission-serves runners careful asked careful-submission

-- another page, as it is when it opens
abbrev opened : Page
opened = record composed { draft = []; runner = none; repository = [] }

revisited-Remembers_example :
    let picked = change_model runners luna composed in
    let set = change_model_configuration (text "gpt-5.6-luna") high composed in
    Remembers (text "claude-opus-5") picked (revisited picked opened)
    × Remembers (text "claude-opus-5") set (revisited set opened)
unfolding models text text_eq
revisited-Remembers_example =
    revisited-Remembers runners luna (text "gpt-5.6-luna") (text "claude-opus-5") high composed
      opened refl refl refl refl refl

abbrev home : Home
home = record {
  page = composed;
  mode = chat;
  asked = [];
  calls = [];
  answered = 0;
  toasts = [];
  opened = none;
}

-- a question is refused, and then a prompt enhanced while a task is queued in vain
abbrev visit : List Event
visit =
    enter false false
    ∷ rejected (text "offline")
    ∷ press_enhance
    ∷ press_submit
    ∷ resolved (text "better")
    ∷ []

run-Balances_example : Balances (run runners visit home)
run-Balances_example = run-Balances runners visit home (omega arith)

buttons-call_example :
    (CallsOnce home (send runners home) ↔ (can_send home ≡ true))
    × (CallsOnce home (begin_enhance home) ↔ (can_enhance home ≡ true))
buttons-call_example = buttons-call runners home

-- the branch is typed with a blank behind it
abbrev switches : List SwitcherEvent
switches = toggled true ∷ Branches.typed (b'v' ∷ b'2' ∷ b' ' ∷ []) ∷ picked_custom ∷ []

abbrev on_main : Switcher
on_main = record {
  input_value = [];
  open_ = false;
  page = record careful { branch = text "main"; branches = text "main" ∷ [] };
}

abbrev on_v2 : NewTaskSpec
on_v2 = record asked { base_branch = b'v' ∷ b'2' ∷ [] }

main-HasBranches : HasBranches on_main.page
unfolding text text_eq trim trim_start trim_end is_space
main-HasBranches = record {
  good = ((refl, refl), tt);
  apart = refl;
  offered = refl;
  chosen = (refl, refl);
}

v2-submission : submission runners (Branches.run switches on_main).page ≡ some on_v2
unfolding submission Branches.run Branches.step pick_custom can_use_custom_branch select_branch
    change_branch trim trim_start trim_end is_space text_eq text
v2-submission = refl

picked-runner_example :
    runner_of (submission runners (change_runner (text "b") careful))
    ≡ some (some (some (text "b")))
unfolding text text_eq
picked-runner_example =
    picked-runner runners careful (text "b") (refl, (refl, tt))
      (unfold runner_options offered_runners text text_eq in refl)
      (unfold text trim trim_start trim_end is_space in refl)

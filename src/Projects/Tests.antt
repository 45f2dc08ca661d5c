-- ===== src/Projects/Tests.antt =====
-- Tasks of two repositories in the sidebar (apps/web/src/components/app-sidebar.tsx).
use lgtm.Prelude.{ℕ, suc, Bool, false, none, some, List, [], ◌∷◌, Text, text, leb}
use lgtm.Types.{Task, Project, claude, queued}

abbrev task_in : Text → ℕ → Task
task_in repository at = record {
  archived = false;
  created_at = at;
  error = none;
  executions = [];
  files = [];
  id = text "t";
  result = none;
  runner = none;
  scratchpad = [];
  spec = record {
    base_branch = text "main";
    created_by = none;
    executor = claude;
    kind = text "task";
    model = none;
    prompt = text "fix it";
    reasoning_effort = none;
    repository = repository;
    runner = none;
    sandbox = none;
  };
  status = queued;
  title = none;
}

abbrev web : Text
web = b'w' ∷ []

abbrev api : Text
api = b'a' ∷ []

abbrev tasks : List Task
tasks = task_in web 1 ∷ task_in api 2 ∷ task_in web 3 ∷ []

abbrev known : List Project
known =
    record {
      id = text "p";
      name = text "api";
      next_number = 1;
      prefix = text "A";
      repository = some api;
    }
    ∷ []

-- names by their length
abbrev size : Text → ℕ
size [] = 0
size (_ ∷ s) = suc (size s)

abbrev shorter : Text → Text → Bool
shorter a b = leb (size a) (size b)

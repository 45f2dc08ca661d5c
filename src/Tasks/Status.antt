-- ===== src/Tasks/Status.antt =====
-- apps/web/src/components/task-list.tsx: tone, glyph and label of each status, and short spans of
-- time; apps/web/src/lib/utils.ts: the title of a task.
use lgtm.Prelude.{
  ℕ, ◌/◌, Option, none, some, List, [], ◌∷◌, ◌++◌, Text, text, trim, split, decimal, leb,
  if◌then◌else◌,
}
use lgtm.Types.{
  Task, TaskStatus, queued, running, awaiting_review, changes_requested, conflicted, approved,
  merged, rejected, failed, timed_out, runner_lost, cancelled,
}

pub data Tone : Type 0 where
  idle live attention done broken : Tone

pub data Glyph : Type 0 where
  ban chat_bubble circle_check circle_minus circle_x clock code_branch code_merge : Glyph
  hand_check loader plug_off stopwatch : Glyph

pub record Mark : Type 0 where
  pub icon : Glyph
  pub label : Text
  pub tone : Tone

-- the table `STATUS`
unfoldable pub status_mark : TaskStatus → Mark
status_mark approved = record { icon = circle_check; label = text "Approved"; tone = done }
status_mark awaiting_review = record {
  icon = hand_check;
  label = text "Awaiting review";
  tone = attention;
}
status_mark cancelled = record { icon = circle_minus; label = text "Cancelled"; tone = idle }
status_mark changes_requested = record {
  icon = chat_bubble;
  label = text "Changes requested";
  tone = attention;
}
status_mark conflicted = record { icon = code_branch; label = text "Conflicted"; tone = attention }
status_mark failed = record { icon = circle_x; label = text "Failed"; tone = broken }
status_mark merged = record { icon = code_merge; label = text "Merged"; tone = done }
status_mark queued = record { icon = clock; label = text "Queued"; tone = idle }
status_mark rejected = record { icon = ban; label = text "Rejected"; tone = idle }
status_mark runner_lost = record { icon = plug_off; label = text "Runner lost"; tone = broken }
status_mark running = record { icon = loader; label = text "Running"; tone = live }
status_mark timed_out = record { icon = stopwatch; label = text "Timed out"; tone = broken }

abbrev pub units : List (ℕ × Text)
units = (86400000, text "d") ∷ (3600000, text "h") ∷ (60000, text "m") ∷ (1000, text "s") ∷ []

-- the loop of `shortSpan`
unfoldable pub span_from : List (ℕ × Text) → ℕ → Text
span_from [] ms = text "0s"
span_from ((size, suffix) ∷ rest) ms =
    let smaller = span_from rest ms in
    if leb size ms then decimal (ms / size) ++ suffix else smaller

-- a negative span counts as 0, which is `ms` of a natural number
unfoldable pub short_span : ℕ → Text
unfolding span_from
short_span ms = span_from units ms

abbrev or_no_prompt : Text → Text
or_no_prompt [] = text "(no prompt)"
or_no_prompt (c ∷ line) = c ∷ line

abbrev first_of_lines : List Text → Text
first_of_lines [] = []
first_of_lines (line ∷ _) = line

-- the prompt's first line stands in for a title
unfoldable pub first_line : Text → Text
first_line prompt = or_no_prompt (trim (first_of_lines (split b'\n' prompt)))

abbrev or_first_line : Option Text → Text → Text
or_first_line none prompt = first_line prompt
or_first_line (some title) prompt = title

unfoldable pub task_title : Task → Text
task_title task = or_first_line task.title task.spec.prompt

-- ===== src/Transcript/Kinds.antt =====
-- The labels that apps/web/src/components/task-transcript.tsx tells apart by `event.type`.
use lgtm.Prelude.{List, [], ◌∷◌, String, Text, text, text_eq, if◌then◌else◌}

-- the labels of the two `switch` statements, and their default
pub data EventKind : Type 0 where
  message progress command_run file_changed output_line permission_requested : EventKind
  started validating completed failed timed_out runner_lost cancelled retry requeued : EventKind
  conflicted network_denied host_allowed policy_decision orchestrated auto_approved : EventKind
  auto_merged pushed discarded pr_reviewed scratchpad artefact other : EventKind

abbrev pub kinds : List (String × EventKind)
kinds =
    ("message", message)
    ∷ ("progress", progress)
    ∷ ("command", command_run)
    ∷ ("file_changed", file_changed)
    ∷ ("output", output_line)
    ∷ ("permission_requested", permission_requested)
    ∷ ("started", started)
    ∷ ("validating", validating)
    ∷ ("completed", completed)
    ∷ ("failed", failed)
    ∷ ("timed_out", timed_out)
    ∷ ("runner_lost", runner_lost)
    ∷ ("cancelled", cancelled)
    ∷ ("retry", retry)
    ∷ ("requeued", requeued)
    ∷ ("conflicted", conflicted)
    ∷ ("network_denied", network_denied)
    ∷ ("host_allowed", host_allowed)
    ∷ ("policy_decision", policy_decision)
    ∷ ("orchestrated", orchestrated)
    ∷ ("auto_approved", auto_approved)
    ∷ ("auto_merged", auto_merged)
    ∷ ("pushed", pushed)
    ∷ ("discarded", discarded)
    ∷ ("pr_reviewed", pr_reviewed)
    ∷ ("scratchpad", scratchpad)
    ∷ ("artefact", artefact)
    ∷ []

unfoldable pub kind_in : List (String × EventKind) → Text → EventKind
kind_in [] name = other
kind_in ((label, kind) ∷ rest) name =
    let later = kind_in rest name in if text_eq name (text label) then kind else later

-- the label that `event.type` reaches
unfoldable pub event_kind : Text → EventKind
unfolding kind_in
event_kind name = kind_in kinds name

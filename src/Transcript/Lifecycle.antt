-- ===== src/Transcript/Lifecycle.antt =====
-- apps/web/src/components/task-transcript.tsx: one stored event to one row.
use lgtm.Prelude.{
  ℕ, Option, some, [], ◌∷◌, ◌++◌, length, text, trim, join, decimal, is_empty, if◌then◌else◌,
}
use lgtm.Types.{EventBody, StoredEvent}
use lgtm.Transcript.Events.{str_of, strings, skill_refs, as_number, is_true}
use lgtm.Transcript.Items.{
  Item, user, agent, tool, output, permission, marker, boundary, muted, good, warn, bad, command,
  file, terminal_icon, code_icon, span, file_path,
}
use lgtm.Transcript.Kinds.{
  EventKind, message, progress, command_run, file_changed, output_line, permission_requested,
  started, validating, completed, failed, timed_out, runner_lost, cancelled, retry, requeued,
  conflicted, network_denied, host_allowed, policy_decision, orchestrated, auto_approved,
  auto_merged, pushed, discarded, pr_reviewed, scratchpad, artefact, event_kind,
}
use lgtm.Transcript.Wording.{
  or_null, or_zero, number_text, format_bytes, policy_marker, started_parts, spaced,
}

-- the `switch` of `lifecycleMarker`
unfoldable pub lifecycle_marker : EventKind → ℕ → EventBody → Item
lifecycle_marker started at event =
    boundary at
      (join (text " · ") (started_parts (length (skill_refs event)) (str_of event (text "model"))))
      muted
lifecycle_marker validating at event =
    marker at (text "Running checks: " ++ join (text ", ") (strings event (text "names"))) muted
lifecycle_marker completed at event = boundary at (text "Run completed") good
lifecycle_marker failed at event = boundary at (text "Run failed") bad
lifecycle_marker timed_out at event =
    boundary at (text "Timed out after " ++ number_text (as_number event (text "secs")) ++ text "s")
      bad
lifecycle_marker runner_lost at event =
    boundary at (text "Runner lost while the task was running") bad
lifecycle_marker cancelled at event = boundary at (text "Cancelled") bad
lifecycle_marker retry at event =
    boundary at
      (text "Retrying (attempt "
        ++ number_text (as_number event (text "attempt"))
        ++ text "): "
        ++ str_of event (text "reason"))
      warn
lifecycle_marker requeued at event =
    let runner = str_of event (text "runner") in
    boundary at
      (text "Requeued on "
        ++ (if is_empty runner then text "any runner" else runner)
        ++ text " · "
        ++ str_of event (text "executor"))
      muted
lifecycle_marker conflicted at event =
    marker at
      (text "Rebase onto "
        ++ str_of event (text "base")
        ++ text " conflicted on "
        ++ decimal (length (strings event (text "files")))
        ++ text " files")
      warn
lifecycle_marker network_denied at event =
    marker at (text "Network denied: " ++ str_of event (text "host")) warn
lifecycle_marker host_allowed at event =
    marker at (text "Host allowed: " ++ str_of event (text "host")) good
lifecycle_marker policy_decision at event = policy_marker at event
lifecycle_marker orchestrated at event =
    marker at
      (text "Orchestrator asked to "
        ++ str_of event (text "action")
        ++ text " — "
        ++ (if is_true event (text "applied") then text "applied" else text "not applied"))
      muted
lifecycle_marker auto_approved at event = marker at (text "Approved by policy") good
lifecycle_marker auto_merged at event = marker at (text "Merged by policy") good
lifecycle_marker pushed at event = marker at (text "Pushed " ++ str_of event (text "branch")) good
lifecycle_marker discarded at event = marker at (text "Worktree and branch discarded") muted
lifecycle_marker pr_reviewed at event =
    marker at (text "Pull request review: " ++ str_of event (text "state")) muted
lifecycle_marker scratchpad at event = marker at (text "Updated the scratchpad") muted
lifecycle_marker artefact at event =
    marker at
      (text "Left artefact "
        ++ str_of event (text "name")
        ++ text " ("
        ++ format_bytes (or_zero (as_number event (text "size")))
        ++ text ")")
      muted
lifecycle_marker _ at event = marker at (spaced event.type) muted

-- the `switch` of `toItem`
unfoldable pub item_of : EventKind → ℕ → EventBody → Option Item
item_of message at event =
    some (user at (or_null (str_of event (text "by"))) (str_of event (text "text")))
item_of progress at event = some (agent at (str_of event (text "text")))
item_of command_run at event = some (
    tool (record {
      at = at;
      tool = command;
      icon = terminal_icon;
      body = span (str_of event (text "command"));
      lines = [];
    }))
item_of file_changed at event = some (
    tool (record {
      at = at;
      tool = file;
      icon = code_icon;
      body = file_path (str_of event (text "path"));
      lines = [];
    }))
item_of output_line at event = some (output at (str_of event (text "line") ∷ []))
item_of permission_requested at event = some (
    permission at (trim (str_of event (text "kind") ++ text " " ++ str_of event (text "target")))
      (str_of event (text "reason")))
item_of kind at event = some (lifecycle_marker kind at event)

-- `null` would drop the event from the feed
unfoldable pub to_item : StoredEvent → Option Item
to_item stored = item_of (event_kind stored.event.type) stored.at stored.event

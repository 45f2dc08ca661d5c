-- ===== src/Editor/Tests.antt =====
-- Runs of the editor of apps/web/src/components/markdown-editor.tsx.
use lgtm.Prelude.{arith, ◌≢◌, List, [], ◌∷◌, Text, text}
use lgtm.Editor.{
  HeadingNode, Event, create, update, timeout, mount, flush, sync_headings, on_update, on_timeout,
  step, run,
}

abbrev title : HeadingNode
title = record { level = 1; content = text "Plan" }

abbrev part : HeadingNode
part = record { level = 2; content = text "Next" }

abbrev old : Text
old = b'o' ∷ []

abbrev new : Text
new = b'n' ∷ []

-- an edit that the debounce saw through, and one that it did not
abbrev session : List Event
session = create [] ∷ update old (title ∷ []) ∷ timeout ∷ update new (title ∷ part ∷ []) ∷ []

session-pending : (run session (mount [])).0.pending ≢ (run session (mount [])).0.emitted
unfolding run step mount flush on_update on_timeout sync_headings
session-pending e = ground (arith, e)

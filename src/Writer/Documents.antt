-- ===== src/Writer/Documents.antt =====
-- The save loop of a document (apps/web/src/routes/scratchpads_.$id.tsx,
-- apps/web/src/routes/skills_.$id.tsx) as a writer.
use lgtm.Prelude.{◌≡◌, some, Text}
use lgtm.Autosave.{Document}
use lgtm.Writer.{Writer, is_some, Trace}

module _ {R : Type 0} (request : Text → R) where
  abbrev pub view : Document R → Writer R
  view d = record { latest = d.latest; busy = is_some d.in_flight; sent = d.sent }

  -- a parked text is the latest one
  abbrev IsCurrent : Document R → Type 0
  IsCurrent d = (content : Text) → d.queued ≡ some content → content ≡ d.latest

-- ===== src/Transcript.antt =====
-- apps/web/src/components/task-transcript.tsx: the feed of a task. `Events` reads the loose JSON of
-- a stored event, `Items` has the rows, `Kinds`, `Wording` and
-- `Lifecycle` turn an event into a row, `Feed` folds output
-- into the row that it belongs to, `Grouping` collapses runs of tool work.
pub mod Events
pub mod Items
pub mod Kinds
pub mod Wording
pub mod Lifecycle
pub mod Feed
pub mod Grouping
mod Tests

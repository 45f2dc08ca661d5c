-- ===== src/Tasks.antt =====
-- The tasks on the web: how a status reads (components/task-list.tsx), the triage page
-- (components/task-triage.tsx), what can be done to a task (components/task-composer.tsx) and its
-- summary (components/task-summary-panel.tsx), all under apps/web/src.
pub mod Status
pub mod FilePath
pub mod Triage
pub mod Composer
pub mod Review
pub mod Summary
mod Tests

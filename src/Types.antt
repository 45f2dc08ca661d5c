-- ===== src/Types.antt =====
-- apps/web/src/lib/lgtm/types.ts: what the orchestrator's HTTP API hands to the web app. The
-- children follow the file: the runners and tasks, the JSON of a stored event, and the rest of
-- the workspace. Timestamps and counts are natural numbers; an optional member (`m?: T`) and a
-- nullable one (`T | null`) are `Option`, and a member that is both has two of them.
mod Tasks
mod Json
mod Workspace
pub use Tasks.*
pub use Json.*
pub use Workspace.*

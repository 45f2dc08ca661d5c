-- ===== src/Server/Calls.antt =====
-- The server functions of apps/web/src/lib/lgtm/server.ts, each as the arguments that it gives to
-- `api`, and all of them as one type.
mod Requests
mod Tasks
mod Workspace
mod Documents
pub mod All
unfoldable pub use Requests.*
unfoldable pub use Tasks.*
unfoldable pub use Workspace.*
unfoldable pub use Documents.*

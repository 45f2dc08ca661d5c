-- ===== src/Frame.antt =====
-- The frame around the pages: the headings and the right-hand panel of
-- apps/web/src/components/site-header.tsx and app-shell.tsx, the theme of account-menu.tsx and
-- routes/__root.tsx, the machines of runner-list.tsx, the feed of routes/activity.tsx, and the
-- pages that refetch while something runs.
pub mod Activity
pub mod Panel
pub mod Polling
pub mod Remembered
pub mod Runners
pub mod StretchText
pub mod Theme
pub mod Title
mod Tests

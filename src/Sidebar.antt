-- ===== src/Sidebar.antt =====
-- apps/web/src/components/app-sidebar.tsx and the rows under it: Rows has what can be done to a chat,
-- a task or a project of the sidebar (apps/web/src/components/row-menu.tsx, chat-item.tsx and
-- project-item.tsx), OpenMap which groups are open, Adding the form for a new project.
pub mod Rows
pub mod OpenMap
pub mod Adding
mod Tests

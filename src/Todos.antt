-- ===== src/Todos.antt =====
-- apps/web/src/routes/todos_.$id.tsx: the page of a todo. Description is the save loop of its
-- description, which differs from that of the document pages: the text to send next is the latest
-- one, and a text that was changed back in the meantime is not sent again.
pub mod Description
pub mod Edits
mod Tests

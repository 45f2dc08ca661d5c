-- ===== src/Listing.antt =====
-- The pages that list records by repository or project: apps/web/src/routes/memories.tsx, whose
-- `groupByRepository` the pages for scratchpads and skills use too, and
-- apps/web/src/routes/todos.tsx. The order of `localeCompare` is a parameter.
pub mod Repositories
pub mod Scratchpads
pub mod Todos
mod Tests

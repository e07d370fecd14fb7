-- ===== src/Schema.antt =====
-- infrareplay/schema: the types that every component agrees on.
pub mod Value
pub mod Event
pub mod Result
pub mod Migrations

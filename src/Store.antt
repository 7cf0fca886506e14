-- ===== src/Store.antt =====
-- The PostgreSQL database behind the server, and how the code acts on it.
mod Rows
mod Action
pub mod Consistent
pub use Rows.*
pub use Action.*

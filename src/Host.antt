-- ===== src/Host.antt =====
-- The machine that the program runs on: errors, files, and system calls that may fail or be the
-- last thing the process does. An operation of the program is an `Io` action over a `World`.
mod Errors
mod Files
mod Action
pub mod Inversion
pub mod Answers
pub use Errors.*
unfoldable pub use Files.*
unfoldable pub use Action.*

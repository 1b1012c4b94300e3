-- ===== src/Frontend.antt =====
-- app/frontend/src/lib/bart: the editor's own reading and printing of `.bart` rules.
pub mod Lexer
pub mod Format
pub mod Cover
pub mod Rule
pub mod Naming
pub mod Cursor
pub mod Parser
pub mod Clauses
pub mod Blocks
pub mod Trace
pub mod AttrList
pub mod Causes
pub mod Frames

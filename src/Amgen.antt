-- ===== src/Amgen.antt =====
-- cmd/amgen/src/main.rs: the generator that translates the messages of a Rust file to Go. macros/src/lib.rs: the wire
-- name that the message macro gives a type.
--
-- A text that the code walks is the list of its characters' numbers. The syntax that the `syn` crate parses is what
-- the code sees of it: the cases of its types that the code tells apart, and the attributes with the results of
-- their parsers. Files, arguments and paths are left out.
pub mod Texts
pub mod Names
pub mod Types
pub mod Render
pub mod WireNames

-- ===== src/Adapter.antt =====
-- guest/http-adapter/src/lib.rs and guest/http-state-doc-adapter/src/lib.rs: the components that turn an
-- HTTP request into an envelope for a solver, and the solver's envelope into an HTTP response. A trap is
-- `none`. The two files share their reader and writer.
pub mod Write
pub mod Cursor
pub mod Strings
pub mod Numbers
pub mod Envelope
pub mod Response
pub mod Glyphs
pub mod Document
pub mod Loops
pub mod Sizes
pub mod Numerals
pub mod Tokens
pub mod Skip
pub mod Request
pub mod Parts
pub mod Answers
pub mod HeaderOrder
pub mod Body
pub mod Handle
pub mod Backend
pub mod Served
pub mod StateDoc
mod Tests

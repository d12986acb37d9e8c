-- ===== src/Caps.antt =====
-- crates/x07-wasm/src/caps: what a guest may do, and the evidence of what it was given.
pub mod Ip
pub mod Doc
pub mod Network
pub mod Evidence
pub mod Replay
pub mod Enforce
pub mod Sources
pub mod Reruns
pub mod Preopened
pub mod Confined
mod EnforceTests
mod Tests

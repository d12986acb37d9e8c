-- ===== src/Reducer.antt =====
-- crates/x07-wasm/src/http_reducer/replay.rs: the loop that runs a reducer. Each step sends the guest a
-- dispatch with its state and the results of its last effects, checks the frame that it answers, and
-- runs the effects that the frame asks for, until the frame holds a response.
-- The children model it in layers: Host is what the loop uses, State what it keeps, Effects and Fetch
-- run one effect, Loop is the loop.
pub mod Host
pub mod State
pub mod Fetch
pub mod Effects
pub mod Loop
mod Rules
pub mod Trace
pub mod Permitted
pub mod Confined
pub mod KeyValue
mod Tests

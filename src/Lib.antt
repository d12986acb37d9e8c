-- ===== src/Lib.antt =====
-- x07-wasm: the WebAssembly backend's host, modelled and verified.
--
-- The backend builds and runs guests: solver modules that are called through `x07_solve_v2`, and HTTP
-- reducers that answer dispatches with frames. The host lays a call's memory out and checks what comes
-- back, runs the effects that a reducer asks for under a capabilities document and budgets, records
-- and replays what was not deterministic, reads the diagnostics that guests report, and turns
-- diagnostics into an exit code. The adapters under guest are the components that turn an HTTP request
-- into a solver's envelope and its answer into an HTTP response. The paths below are those of
-- crates/x07-wasm/src, and for Adapter those of guest.
--
--   Common         lists, texts, bits, decimal numbers and results, which every part shares
--   Json           serde_json's `Value`, as far as the program uses it
--   Diag           diag.rs; Diag.ExitCode is report/exit_code.rs
--   Solve          wasm/abi_solve_v2.rs: `call_solve_v2` is `enter`, which lays out, checks, writes and
--                  calls, and `collect`, which reads and checks the output
--   GuestDiag      guest_diag.rs: a guest's diagnostic in two HTTP headers or two lines of its stderr
--   Caps           caps/doc.rs in Caps.Doc and Caps.Ip, caps/evidence.rs in Caps.Evidence, and
--                  caps/enforce.rs in Caps.Enforce, with its clocks and random sources in Caps.Sources
--   Limits         wasmtime_limits.rs: the limiter and the classes of exceeded budgets;
--                  Limits.Config is what limits set in a configuration
--   StreamPayload  stream_payload.rs: bytes in JSON documents
--   Reducer        http_reducer/replay.rs: Reducer.Host is what the loop uses, Reducer.State what it
--                  keeps, Reducer.Effects and Reducer.Fetch run an effect, Reducer.Loop is
--                  `run_http_reducer_loop`; Reducer.Rules are its proof rules. The response envelope
--                  is that of serve.rs.
--   Workload       workload/surface.rs: the service manifest, in Workload.Manifest, and its validation, in
--                  Workload.Cell for a cell's runtime and Workload.Validate for the loops; the documents of
--                  an accepted manifest, in Workload.Topology, Workload.Pack and Workload.Describe, with
--                  Workload.Groups for the maps that group
--   Util           util.rs: hexadecimal texts
--   MemoryPlan     wasm/memory_plan.rs: the plan of a module's memory from the linker's flags
--   Server         serve.rs: the identifier and the envelope of a request
--   Arch           arch/mod.rs: the contract and the identifiers of profiles
--   Adapter        http-adapter/src/lib.rs and http-state-doc-adapter/src/lib.rs: Adapter.Write is what they
--                  write, Adapter.Cursor, Adapter.Envelope and Adapter.Response are `Cursor` and the parsers,
--                  Adapter.Body reads the body, Adapter.Handle has the handlers. Adapter.Document describes
--                  JSON documents, as trees with the white space between their tokens, and Adapter.Glyphs
--                  their texts with any escapes. Adapter.Strings to Adapter.StateDoc are proofs.
--
-- The reducer's loop calls the network check of Caps.Doc for every fetch, the payloads of
-- StreamPayload for every value, and the classes of Limits for every failed call of the guest.
--
-- Integers are natural numbers with their bounds and wrap-around written out; `usize` has 64 bits in
-- the host and 32 in the adapters. Bytes are numbers, and texts that the code reads byte by byte are
-- lists of them. A `Result` keeps the error as a value, with one constructor for each message where a
-- message is built from data. Mutable state is passed along. Loops are structural recursion: over the
-- list or the blocks that they read, and for the reducer over the steps that are left of
-- `max_effect_steps`, which is the loop's own bound, so no other fuel is needed; decimal digits use
-- one more than the number as fuel, which is more than its digits. The adapters' parsers use the bytes
-- that are left as fuel, since each round and each level takes one.
--
-- Parameters are: Wasmtime's memory and the guest; serde_json's parser; the base64 and ipnet crates;
-- UTF-8; hyper's URIs and client; wasi:http and the adapters' solver; the clock; the process's
-- variables and files; and, as the interface Reducer.Host.Host, the schema store, canonical JSON and
-- the bounded body read of the backend's other modules. What they promise stands in the records named
-- IsMemory, IsBase64, IsCodec, KeepsUri and Takes, where the host takes a chunk of at most 4096 bytes
-- at once, as wasi:io documents it.
--
-- Not modelled: commands that only read files, start processes or print reports (cli, component, wasm,
-- toolchain, ops, wit, workload commands), the packing of a workload's files, the servers around the
-- loop, the allocators of the adapters, and the CLI adapter, which copies streams.
pub mod Common
pub mod Json
pub mod Diag
pub mod Solve
pub mod GuestDiag
pub mod Caps
pub mod Limits
pub mod StreamPayload
pub mod Reducer
pub mod Util
pub mod Arch
pub mod MemoryPlan
pub mod Server
pub mod Workload
pub mod Adapter

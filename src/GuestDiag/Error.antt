-- ===== src/GuestDiag/Error.antt =====
-- The host's error about a guest's diagnostic.
use x07_wasm_backend.Common.{String}
use x07_wasm_backend.Diag
use x07_wasm_backend.Diag.{Diagnostic, error, run}

pub record HostDiagError : Type 0 where
  pub code : String
  pub message : String

pub into_diagnostic : HostDiagError → Diagnostic
into_diagnostic e = Diag.new e.code error run e.message

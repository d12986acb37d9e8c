-- ===== src/Server/Tests.antt =====
-- A request identifier at a concrete header.
use x07_wasm_backend.Common.{◌≤◌, ◌≡◌, refl, true, some, codes, length}
use x07_wasm_backend.Server.{is_request_id, normalize_request_id}
use x07_wasm_backend.Server.RequestId.{normalize_request_id_cases}

normalized : normalize_request_id (codes "  Req-7.A ") ≡ some (codes "req-7.a")
unfolding normalize_request_id
normalized = refl

normalize_request_id_cases_example :
    (is_request_id (codes "req-7.a") ≡ true)
    × (length (codes "req-7.a") ≤ 64)
    × (normalize_request_id (codes "req-7.a") ≡ some (codes "req-7.a"))
normalize_request_id_cases_example =
    normalize_request_id_cases (codes "  Req-7.A ") (codes "req-7.a") normalized

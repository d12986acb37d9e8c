-- ===== src/Reducer/Effects.antt =====
-- One effect of a frame, by its type.
use Prim.Native.String.{◌++◌ as str_append}
use x07_wasm_backend.Common.{
  ℕ, String, Bool, true, false, Option, none, some, List, [], ◌∷◌, str_eq, if◌then◌else◌,
}
use x07_wasm_backend.Common.Result.{Result, ok, err}
use x07_wasm_backend.Json.{
  Value, null, bool, number, string, object, pos_int, of_entries, get, as_bool, as_u64, str_or,
  unwrap_or, and_then,
}
use x07_wasm_backend.Diag.{run, parse}
use x07_wasm_backend.Caps.Doc.{CapabilitiesDoc, CapabilityMode}
use x07_wasm_backend.StreamPayload.{PayloadError, stream_payload_to_bytes, bytes_to_stream_payload}
use x07_wasm_backend.Reducer.Host.{Host}
use x07_wasm_backend.Reducer.State.{Io, kv_get, kv_insert, push, failed, truncate_4096}
use x07_wasm_backend.Reducer.Fetch.{http_fetch}

-- The bytes of an effect's result that count against the budget.
unfoldable pub effect_result_payload_bytes : Value → ℕ
effect_result_payload_bytes result =
    if unwrap_or (and_then (get "ok" result) as_bool) false
    then if str_eq (str_or "type" "" result) "kv.get"
      then unwrap_or (and_then (and_then (get "value" result) (get "bytes_len")) as_u64) 0
      else if str_eq (str_or "type" "" result) "http.fetch"
      then unwrap_or
          (and_then (and_then (and_then (get "response" result) (get "body")) (get "bytes_len"))
            as_u64)
          0
      else 0
    else 0

abbrev pub clock_denied_message : String
clock_denied_message = "time.now denied by capabilities"

-- `caps.clocks.mode == CapabilityMode::Deny`
abbrev pub denies_clock : {IpNet : Type 0} → Option (CapabilitiesDoc IpNet) → Bool
denies_clock none = false
denies_clock (some caps) = elim caps.clocks [ CapabilityMode.deny ↦ true | _ ↦ false ]

module _ {W IpNet : Type 0} (host : Host W IpNet) where
  -- The result of `kv.get`, from what the map holds.
  abbrev pub kv_found : String → Option (List ℕ) → Value
  kv_found id (some v) = object (
      of_entries (
        ("id", string id)
        ∷ ("type", string "kv.get")
        ∷ ("ok", bool true)
        ∷ ("found", bool true)
        ∷ ("value", bytes_to_stream_payload host.codec v)
        ∷ []))
  kv_found id none = object (
      of_entries (
        ("id", string id)
        ∷ ("type", string "kv.get")
        ∷ ("ok", bool true)
        ∷ ("found", bool false)
        ∷ ("value", null)
        ∷ []))

  unfoldable pub effect_kv_get : String → Value → Io W IpNet → Value × Io W IpNet
  effect_kv_get id eff io = (kv_found id (kv_get (str_or "key" "" eff) io.effects.kv), io)

  abbrev pub put_value : String → List ℕ → Io W IpNet → Io W IpNet
  put_value key bytes io = record io {
    effects = record io.effects { kv = kv_insert key bytes io.effects.kv };
  }

  -- What `kv.put` does with the decoded value.
  abbrev pub kv_written :
      String → Value → Io W IpNet → Result PayloadError (List ℕ) → Value × Io W IpNet
  kv_written id eff io (ok bytes) = (
    object (
        of_entries (
          ("id", string id)
          ∷ ("type", string "kv.put")
          ∷ ("ok", bool true)
          ∷ ("written", bool true)
          ∷ [])),
    put_value (str_or "key" "" eff) bytes io,
  )
  kv_written id eff io (err e) = (
    failed id "kv.put" (truncate_4096 (host.show_payload_error e)),
    push "X07WASM_HTTP_EFFECT_KV_IO_FAILED" run
        (str_append "kv.put decode failed: " (host.show_payload_error e)) io,
  )

  unfoldable pub effect_kv_put : String → Value → Io W IpNet → Value × Io W IpNet
  effect_kv_put id eff io =
      kv_written id eff io (stream_payload_to_bytes host.codec (unwrap_or (get "value" eff) null))

  -- `log.emit`, which prints a line.
  unfoldable pub effect_log_emit : String → Value → Io W IpNet → Value × Io W IpNet
  effect_log_emit id eff io = (
    object (
        of_entries (
          ("id", string id)
          ∷ ("type", string "log.emit")
          ∷ ("ok", bool true)
          ∷ ("emitted", bool true)
          ∷ [])),
    record io {
      world = host.print_log (str_or "level" "info" eff) (str_or "message" "" eff) io.world;
    },
  )

  abbrev pub use_os_time : W → Io W IpNet → Io W IpNet
  use_os_time world io = record io {
    effects = record io.effects {
      nondeterminism = record io.effects.nondeterminism { uses_os_time = true };
    };
    world = world;
  }

  -- `time.now`
  unfoldable pub effect_time_now : String → Io W IpNet → Value × Io W IpNet
  effect_time_now id io =
      if denies_clock io.effects.caps
      then (
        failed id "time.now" clock_denied_message,
        push "X07WASM_CAPS_CLOCK_DENIED" run clock_denied_message io,
      )
      else (
        object (
            of_entries (
              ("id", string id)
              ∷ ("type", string "time.now")
              ∷ ("ok", bool true)
              ∷ ("unix_ms", number (pos_int (host.now_unix_ms io.world).0))
              ∷ [])),
        use_os_time (host.now_unix_ms io.world).1 io,
      )

  unfoldable pub effect_unknown : String → String → Io W IpNet → Value × Io W IpNet
  effect_unknown id typ io = (
    failed id typ "unknown effect type",
    push "X07WASM_HTTP_EFFECT_SCHEMA_INVALID" parse
        (str_append "unknown effect type: " (host.debug_string typ)) io,
  )

  unfoldable pub effect_of_type : String → String → Value → Io W IpNet → Value × Io W IpNet
  unfolding effect_kv_get effect_kv_put effect_log_emit effect_time_now effect_unknown http_fetch
  effect_of_type typ id eff io =
      if str_eq typ "kv.get"
      then effect_kv_get id eff io
      else if str_eq typ "kv.put"
      then effect_kv_put id eff io
      else if str_eq typ "log.emit"
      then effect_log_emit id eff io
      else if str_eq typ "time.now"
      then effect_time_now id io
      else if str_eq typ "http.fetch"
      then http_fetch host id eff io
      else effect_unknown id typ io

  unfoldable pub execute_effect : Value → Io W IpNet → Value × Io W IpNet
  unfolding effect_of_type
  execute_effect eff io = effect_of_type (str_or "type" "" eff) (str_or "id" "eff0" eff) eff io

-- ===== src/Adapter/Response.antt =====
-- `parse_headers`, `parse_stream_payload` and `parse_response_envelope` of guest/http-adapter/src/lib.rs,
-- and `parse_backend_response` of guest/http-state-doc-adapter/src/lib.rs. The base64 crate is `b64`.
use x07_wasm_backend.Common.{
  ℕ, suc, ◌-◌, String, Bool, true, false, not, Option, none, some, List, [], ◌∷◌, ◌++◌, codes,
  codes_eq, ◌==◌, length, take, if◌then◌else◌,
}
use x07_wasm_backend.Common.Chain.{◌>>=◌, require}
use x07_wasm_backend.Caps.Evidence.{Base64Engine}
use x07_wasm_backend.Adapter.Cursor.{
  peeks, skip_ws, expect_byte, parse_u32, parse_u16, parse_string,
}
use x07_wasm_backend.Adapter.Envelope.{Member, drop_first, members, elements, skip_value}

pub record HttpResponseEnvelope : Type 0 where
  pub status : ℕ
  pub request_id : List ℕ
  pub headers : List (List ℕ × List ℕ)
  pub body : List ℕ

abbrev pub key_is : List ℕ → String → Bool
key_is key name = codes_eq key (codes name)

-- A reader's value goes into the accumulator.
abbrev pub into : {A B : Type 0} → (B → A) → Option (B × List ℕ) → Option (A × List ℕ)
into set r = r >>= λ b. some (set b.0, b.1)

module _ (is_utf8 : List ℕ → Bool) where
  abbrev pub skip_into : {A : Type 0} → A → List ℕ → Option (A × List ℕ)
  skip_into acc s = skip_value is_utf8 s >>= λ s'. some (acc, s')

  -- An object behind its brace: one with no members traps.
  unfoldable pub some_members : {A : Type 0} → Member A → A → List ℕ → Option (A × List ℕ)
  some_members member acc s = do
    _ ← require (not (peeks b'}' (skip_ws s)))
    members is_utf8 (suc (length (skip_ws s))) member acc (skip_ws s)

  pub record HeaderFields : Type 0 where
    pub k : Option (List ℕ)
    pub v : Option (List ℕ)

  unfoldable pub header_member : Member HeaderFields
  header_member key acc s =
      if key_is key "k"
      then into (λ k. record acc { k = some k }) (parse_string is_utf8 s)
      else if key_is key "v"
      then into (λ v. record acc { v = some v }) (parse_string is_utf8 s)
      else skip_into acc s

  unfoldable pub header_of : HeaderFields → Option (List ℕ × List ℕ)
  header_of f = do k ← f.k; v ← f.v; some (k, v)

  -- One object of `parse_headers`, which is pushed.
  unfoldable pub parse_header :
      List (List ℕ × List ℕ) → List ℕ → Option (List (List ℕ × List ℕ) × List ℕ)
  unfolding some_members header_member header_of
  parse_header out s = do
    s₁ ← expect_byte b'{' s
    (fields, s₂) ← some_members header_member (record { k = none; v = none }) s₁
    h ← header_of fields
    some (out ++ h ∷ [], s₂)

  unfoldable pub headers_rest : Bool → List ℕ → Option (List (List ℕ × List ℕ) × List ℕ)
  unfolding parse_header
  headers_rest true s = some ([], drop_first s)
  headers_rest false s = elements is_utf8 (suc (length s)) parse_header [] s

  unfoldable pub parse_headers : List ℕ → Option (List (List ℕ × List ℕ) × List ℕ)
  unfolding headers_rest
  parse_headers s = expect_byte b'[' s >>= λ s'. headers_rest (peeks b']' (skip_ws s')) (skip_ws s')

  pub record PayloadFields : Type 0 where
    pub bytes_len : Option ℕ
    pub base64 : Option (List ℕ)
    pub text : Option (List ℕ)

  unfoldable pub payload_member : Member PayloadFields
  payload_member key acc s =
      if key_is key "bytes_len"
      then into (λ n. record acc { bytes_len = some n }) (parse_u32 s)
      else if key_is key "base64"
      then into (λ t. record acc { base64 = some t }) (parse_string is_utf8 s)
      else if key_is key "text"
      then into (λ t. record acc { text = some t }) (parse_string is_utf8 s)
      else skip_into acc s

  abbrev pub of_length : ℕ → List ℕ → Option (List ℕ)
  of_length n bytes = require (length bytes == n) >>= λ _. some bytes

  module _ (b64 : Base64Engine) where
    abbrev pub payload_bytes : ℕ → Option (List ℕ) → Option (List ℕ) → Option (List ℕ)
    payload_bytes n (some t) text = b64.decode t >>= of_length n
    payload_bytes n none (some text) = of_length n text
    payload_bytes n none none = of_length n []

    unfoldable pub parse_stream_payload : List ℕ → Option (List ℕ × List ℕ)
    unfolding some_members payload_member
    parse_stream_payload s = do
      s₁ ← expect_byte b'{' s
      (f, s₂) ←
          some_members payload_member (record { bytes_len = none; base64 = none; text = none }) s₁
      n ← f.bytes_len
      bytes ← payload_bytes n f.base64 f.text
      some (bytes, s₂)

    pub record ResponseFields : Type 0 where
      pub schema_version : Option (List ℕ)
      pub request_id : Option (List ℕ)
      pub status : Option ℕ
      pub headers : Option (List (List ℕ × List ℕ))
      pub body : Option (List ℕ)

    abbrev pub no_response : ResponseFields
    no_response = record {
      schema_version = none;
      request_id = none;
      status = none;
      headers = none;
      body = none;
    }

    unfoldable pub response_member : Member ResponseFields
    unfolding parse_headers parse_stream_payload
    response_member key acc s =
        if key_is key "schema_version"
        then into (λ t. record acc { schema_version = some t }) (parse_string is_utf8 s)
        else if key_is key "request_id"
        then into (λ t. record acc { request_id = some t }) (parse_string is_utf8 s)
        else if key_is key "status"
        then into (λ n. record acc { status = some n }) (parse_u16 s)
        else if key_is key "headers"
        then into (λ hs. record acc { headers = some hs }) (parse_headers s)
        else if key_is key "body"
        then into (λ b. record acc { body = some b }) (parse_stream_payload s)
        else skip_into acc s

    unfoldable pub response_of_fields : ResponseFields → Option HttpResponseEnvelope
    response_of_fields f = do
      version ← f.schema_version
      _ ← require (key_is version "x07.http.response.envelope@0.1.0")
      request_id ← f.request_id
      status ← f.status
      headers ← f.headers
      body ← f.body
      some (record { status = status; request_id = request_id; headers = headers; body = body })

    -- What follows the envelope's last brace is not read.
    unfoldable pub parse_response_envelope : List ℕ → Option HttpResponseEnvelope
    unfolding some_members response_member response_of_fields
    parse_response_envelope bytes = do
      s₁ ← expect_byte b'{' (skip_ws bytes)
      (f, _) ← some_members response_member no_response s₁
      response_of_fields f

    pub record BackendResponseDoc : Type 0 where
      pub response : HttpResponseEnvelope
      pub state_json : List ℕ

    pub record BackendFields : Type 0 where
      pub schema_version : Option (List ℕ)
      pub response_bytes : Option (List ℕ)
      pub state_bytes : Option (List ℕ)

    abbrev pub no_backend : BackendFields
    no_backend = record { schema_version = none; response_bytes = none; state_bytes = none }

    -- The bytes of the value that `skip_value` passes.
    unfoldable pub raw_value : List ℕ → Option (List ℕ × List ℕ)
    raw_value s = skip_value is_utf8 s >>= λ s'. some (take (length s - length s') s, s')

    unfoldable pub backend_member : Member BackendFields
    unfolding raw_value
    backend_member key acc s =
        if key_is key "schema_version"
        then into (λ t. record acc { schema_version = some t }) (parse_string is_utf8 s)
        else if key_is key "response"
        then into (λ t. record acc { response_bytes = some t }) (raw_value s)
        else if key_is key "state"
        then into (λ t. record acc { state_bytes = some t }) (raw_value s)
        else skip_into acc s

    unfoldable pub backend_of_fields : BackendFields → Option BackendResponseDoc
    unfolding parse_response_envelope
    backend_of_fields f = do
      version ← f.schema_version
      _ ← require (key_is version "x07.app.backend.response@0.1.0")
      response_bytes ← f.response_bytes
      state_json ← f.state_bytes
      response ← parse_response_envelope response_bytes
      some (record { response = response; state_json = state_json })

    unfoldable pub parse_backend_response : List ℕ → Option BackendResponseDoc
    unfolding some_members backend_member backend_of_fields
    parse_backend_response bytes = do
      s₁ ← expect_byte b'{' (skip_ws bytes)
      (f, _) ← some_members backend_member no_backend s₁
      backend_of_fields f

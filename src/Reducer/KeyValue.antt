-- ===== src/Reducer/KeyValue.antt =====
-- The effects on the key-value map.
use x07_wasm_backend.Common.{
  ℕ, String, ◌≡◌, refl, sym, ap, true, false, some, List, [], ◌∷◌, arith, inl, inr, Bool-cases,
  str_eq, eq_iff, if◌then◌else◌,
}
use x07_wasm_backend.Json.{Value, get, str_or}
use x07_wasm_backend.StreamPayload.{bytes_to_stream_payload}
use x07_wasm_backend.StreamPayload.RoundTrip.{IsCodec, full}
use x07_wasm_backend.Reducer.Host.{Host}
use x07_wasm_backend.Reducer.State.{Io, kv_get, kv_insert}
use x07_wasm_backend.Reducer.Effects.{effect_kv_get, effect_kv_put, kv_found}

not_same : (k key : String) → str_eq k key ≡ false → str_eq key k ≡ false
not_same k key h = elim (Bool-cases (str_eq key k)) [
  | inl e ↦
      let same : key ≡ k = (eq_iff key k).0 e in
      let yes : str_eq k key ≡ true = (eq_iff k key).1 (sym same) in cc
  | inr e ↦ e
]

-- Once a key is inserted, a lookup finds the value under that key and what it found under any other.
get-insert :
    (key other : String) (value : List ℕ) (kv : List (String × List ℕ))
    → kv_get other (kv_insert key value kv)
      ≡ (if str_eq key other then some value else kv_get other kv)
get-insert key other value [] = refl
get-insert key other value ((k, v) ∷ rest) = elim (Bool-cases (str_eq k key)) [
  | inl e ↦ let same : k ≡ key = (eq_iff k key).0 e in rw e (rw same (ground arith))
  | inr e ↦
      rw (e, get-insert key other value rest)
        (elim (Bool-cases (str_eq k other)) [
          | inl f ↦
              let apart : str_eq key other ≡ false =
                rw (sym ((eq_iff k other).0 f)) (not_same k key e) in
              rw (f, apart) refl
          | inr f ↦ rw f refl
        ])
]

module _ {W IpNet : Type 0} (host : Host W IpNet) (codec_laws : IsCodec host.codec) where
  -- A `kv.put` whose value is the payload of some bytes stores them, with no diagnostic: a `kv.get` finds
  -- the payload of the same bytes under that key, and what it found before under any other key.
  pub kv_get-put :
      (id id' : String) (put fetch : Value) (bytes : List ℕ) (io : Io W IpNet)
      → get "value" put ≡ some (bytes_to_stream_payload host.codec bytes)
      → ((effect_kv_get host id' fetch (effect_kv_put host id put io).1).0
          ≡ kv_found host id' (
              if str_eq (str_or "key" "" put) (str_or "key" "" fetch)
              then some bytes
              else kv_get (str_or "key" "" fetch) io.effects.kv))
        × ((effect_kv_put host id put io).1.diagnostics ≡ io.diagnostics)
  unfolding effect_kv_get effect_kv_put
  kv_get-put id id' put fetch bytes io h =
      rw (h, full host.codec codec_laws bytes)
        (
          ap (kv_found host id')
              (get-insert (str_or "key" "" put) (str_or "key" "" fetch) bytes io.effects.kv),
          refl,
        )

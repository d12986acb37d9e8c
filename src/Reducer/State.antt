-- ===== src/Reducer/State.antt =====
-- The state of the loop's effects, and the values that effects give back.
use Prim.Native.String.{len}
use x07_wasm_backend.Common.{
  ℕ, String, Bool, false, Option, none, some, List, [], ◌∷◌, ◌++◌, str_eq, leb, if◌then◌else◌,
}
use x07_wasm_backend.Json.{Value, bool, string, object, of_entries}
use x07_wasm_backend.Diag
use x07_wasm_backend.Diag.{Diagnostic, Stage, error, take_chars}
use x07_wasm_backend.Caps.Doc.{CapabilitiesDoc}

pub record HttpEffectLoopBudgets : Type 0 where
  pub max_effect_steps : ℕ
  pub max_effect_results_bytes : ℕ

pub record HttpEffectLoopNondeterminism : Type 0 where
  pub uses_network : Bool
  pub uses_os_time : Bool

-- The map `kv` is a list of entries with different keys.
pub record HttpEffectState (IpNet : Type 0) : Type 0 where
  pub kv : List (String × List ℕ)
  pub nondeterminism : HttpEffectLoopNondeterminism
  pub fetch_allow_hosts : List String
  pub caps : Option (CapabilitiesDoc IpNet)

unfoldable pub new_state :
    {IpNet : Type 0} → List String → Option (CapabilitiesDoc IpNet) → HttpEffectState IpNet
new_state fetch_allow_hosts caps = record {
  kv = [];
  nondeterminism = record { uses_network = false; uses_os_time = false };
  fetch_allow_hosts = fetch_allow_hosts;
  caps = caps;
}

-- `HashMap::get` and `HashMap::insert`
abbrev pub kv_get : String → List (String × List ℕ) → Option (List ℕ)
kv_get key [] = none
kv_get key ((k, v) ∷ rest) = if str_eq k key then some v else kv_get key rest

abbrev pub kv_insert : String → List ℕ → List (String × List ℕ) → List (String × List ℕ)
kv_insert key value [] = (key, value) ∷ []
kv_insert key value ((k, v) ∷ rest) =
    if str_eq k key then (k, value) ∷ rest else (k, v) ∷ kv_insert key value rest

-- All that an effect changes: the effect state, the diagnostics and the world.
pub record Io (W IpNet : Type 0) : Type 0 where
  pub effects : HttpEffectState IpNet
  pub diagnostics : List Diagnostic
  pub world : W

abbrev pub push : {W IpNet : Type 0} → String → Stage → String → Io W IpNet → Io W IpNet
push code stage message io = record io {
  diagnostics = io.diagnostics ++ Diag.new code error stage message ∷ [];
}

-- The result of an effect that failed.
abbrev pub failed : String → String → String → Value
failed id typ message = object (
    of_entries (
      ("id", string id)
      ∷ ("type", string typ)
      ∷ ("ok", bool false)
      ∷ ("error", string message)
      ∷ []))

-- `s.len()` counts bytes, and the cut counts characters.
unfoldable pub truncate_4096 : String → String
truncate_4096 s = if leb (len s) 4096 then s else take_chars 4096 s

-- ===== src/Limits/Config.antt =====
-- crates/x07-wasm/src/wasmtime_limits.rs: what the limits of a profile set in a Wasmtime configuration, which
-- is given by the settings made. Loading a cache's configuration is the host's. `usize` has 64 bits.
use x07_wasm_backend.Common.{
  ℕ, ◌*◌, ◌-◌, ◌^◌, String, Bool, true, false, ◌||◌, Option, none, some, ltb, ◌==◌, if◌then◌else◌,
}
use x07_wasm_backend.Common.Result.{Result, ok, err, ◌>>=◌, ◌>>◌, bail_if, or_error}

pub data WasmInstanceAllocator : Type 0 where
  on_demand pooling : WasmInstanceAllocator

pub record WasmRuntimeLimits : Type 0 where
  pub instance_allocator : WasmInstanceAllocator
  pub max_fuel : Option ℕ
  pub max_memory_bytes : Option ℕ
  pub max_table_elements : Option ℕ
  pub max_wasm_stack_bytes : Option ℕ
  pub cache_config : Option String
  pub notes : Option String

pub record PoolingAllocationConfig : Type 0 where
  pub total_component_instances : ℕ
  pub total_core_instances : ℕ
  pub total_memories : ℕ
  pub total_tables : ℕ
  pub max_memories_per_module : ℕ
  pub max_tables_per_module : ℕ
  pub max_memory_size : ℕ
  pub table_elements : ℕ

pub record Config : Type 0 where
  pub consume_fuel : Bool
  pub max_wasm_stack : Option ℕ
  pub cache : Option String
  pub allocation_strategy : Option PoolingAllocationConfig

pub data ConfigError : Type 0 where
  load_cache : String → ConfigError
  concurrency_too_large without_memory_limit without_table_limit zero_limit : ConfigError

abbrev pub u32_max : ℕ
u32_max = 2 ^ 32 - 1

abbrev fuel_used : Option ℕ → Config → Config
fuel_used none config = config
fuel_used (some _) config = record config { consume_fuel = true }

abbrev stack_set : Option ℕ → Config → Config
stack_set none config = config
stack_set (some stack) config = record config { max_wasm_stack = some stack }

abbrev cache_set : (String → Bool) → Option String → Config → Result ConfigError Config
cache_set loads none config = ok config
cache_set loads (some path) config =
    if loads path then ok (record config { cache = some path }) else err (load_cache path)

unfoldable pub apply_config :
    (String → Bool) → WasmRuntimeLimits → Config → Result ConfigError Config
apply_config loads limits config =
    cache_set loads limits.cache_config
      (stack_set limits.max_wasm_stack_bytes (fuel_used limits.max_fuel config))

-- `store_add_fuel`: the fuel that the store is given, if any. `set_fuel` fails where fuel is not consumed.
unfoldable pub store_add_fuel : Config → WasmRuntimeLimits → Result (Unit {0}) (Option ℕ)
store_add_fuel config limits = elim limits.max_fuel [
  | none ↦ ok none
  | some fuel ↦ if config.consume_fuel then ok (some fuel) else err tt
]

abbrev at_least_one : ℕ → ℕ
at_least_one n = if n == 0 then 1 else n

-- `total.saturating_mul(16).max(1)` on u32.
abbrev pub core_instances : ℕ → ℕ
core_instances total = at_least_one (if ltb u32_max (total * 16) then u32_max else total * 16)

-- The configuration of the pool, for numbers that fit.
abbrev pub pool_of : ℕ → ℕ → ℕ → PoolingAllocationConfig
pool_of instances memory_size elements = record {
  total_component_instances = instances;
  total_core_instances = core_instances instances;
  total_memories = core_instances instances;
  total_tables = core_instances instances;
  max_memories_per_module = 1;
  max_tables_per_module = 1;
  max_memory_size = memory_size;
  table_elements = elements;
}

abbrev pool_limits : WasmRuntimeLimits → ℕ → Result ConfigError PoolingAllocationConfig
pool_limits limits instances = do
  bail_if (ltb u32_max instances) concurrency_too_large
  memory_size ← or_error without_memory_limit limits.max_memory_bytes
  elements ← or_error without_table_limit limits.max_table_elements
  bail_if ((memory_size == 0) || (elements == 0)) zero_limit
  ok (pool_of instances memory_size elements)

-- Whether a pool is set, with the configuration.
unfoldable pub apply_instance_allocator_config :
    WasmRuntimeLimits → ℕ → Config → Result ConfigError (Bool × Config)
apply_instance_allocator_config limits max_concurrency config = elim limits.instance_allocator [
  | on_demand ↦ ok (false, config)
  | pooling ↦ do
    pool ← pool_limits limits (at_least_one max_concurrency)
    ok (true, record config { allocation_strategy = some pool })
]

-- ===== src/Json.antt =====
-- serde_json's `Value`, as the program uses it: a tree with its own lists of items and of fields.
-- A `Map` is the list of its entries in iteration order; `insert` replaces the value of a key that is
-- there. A float is known by its bits alone.
use x07_wasm_backend.Common.{
  ℕ, String, Bool, true, false, Option, none, some, List, [], ◌∷◌, str_eq, if◌then◌else◌,
}

pub data Number : Type 0 where
  pos_int neg_int float : ℕ → Number

mutual
  pub data Value : Type 0 where
    null : Value
    bool : Bool → Value
    number : Number → Value
    string : String → Value
    array : Items → Value
    object : Fields → Value

  pub data Items : Type 0 where
    none_left : Items
    item : Value → Items → Items

  pub data Fields : Type 0 where
    no_fields : Fields
    field : String → Value → Fields → Fields

abbrev pub to_list : Items → List Value
to_list none_left = []
to_list (item v vs) = v ∷ to_list vs

abbrev pub of_list : List Value → Items
of_list [] = none_left
of_list (v ∷ vs) = item v (of_list vs)

abbrev pub of_entries : List (String × Value) → Fields
of_entries [] = no_fields
of_entries ((k, v) ∷ rest) = field k v (of_entries rest)

abbrev pub entries : Fields → List (String × Value)
entries no_fields = []
entries (field k v fs) = (k, v) ∷ entries fs

-- `map.get(key)`
abbrev pub get_field : String → Fields → Option Value
get_field key no_fields = none
get_field key (field k v fs) = if str_eq k key then some v else get_field key fs

-- `map.insert(key, value)`
abbrev pub insert : String → Value → Fields → Fields
insert key value no_fields = field key value no_fields
insert key value (field k v fs) =
    if str_eq k key then field k value fs else field k v (insert key value fs)

-- `value.get(key)`
abbrev pub get : String → Value → Option Value
get key (object fs) = get_field key fs
get key _ = none

abbrev pub as_u64 : Value → Option ℕ
as_u64 (number (pos_int n)) = some n
as_u64 _ = none

abbrev pub as_str : Value → Option String
as_str (string s) = some s
as_str _ = none

abbrev pub as_bool : Value → Option Bool
as_bool (bool b) = some b
as_bool _ = none

abbrev pub as_array : Value → Option (List Value)
as_array (array vs) = some (to_list vs)
as_array _ = none

abbrev pub is_object : Value → Bool
is_object (object _) = true
is_object _ = false

abbrev pub is_null : Value → Bool
is_null null = true
is_null _ = false

-- `v.unwrap_or(d)` and `v.and_then(f)`
abbrev pub unwrap_or {ℓ} : {A : Type ℓ} → Option A → A → A
unwrap_or none d = d
unwrap_or (some a) d = a

abbrev pub and_then {ℓ κ} : {A : Type ℓ} {B : Type κ} → Option A → (A → Option B) → Option B
and_then none f = none
and_then (some a) f = f a

-- `v.get(key).and_then(Value::as_str).unwrap_or(d)`
abbrev pub str_or : String → String → Value → String
str_or key d v = unwrap_or (and_then (get key v) as_str) d

-- ===== src/Json.antt =====
-- The values of `serde_json` that the gateway builds and inspects.
use rabb1t_claw.Base.{
  ℕ, Bool, Option, none, some, List, [], ◌∷◌, Text, text_eq, if◌then◌else◌, and_then,
}

mutual
  pub data Json : Type 0 where
    null : Json
    bool : Bool → Json
    -- an integer that fits `u64`
    num : ℕ → Json
    -- a negative or fractional number, by its literal
    other_number : Text → Json
    str : Text → Json
    arr : Items → Json
    obj : Fields → Json

  pub data Items : Type 0 where
    nil : Items
    cons : Json → Items → Items

  pub data Fields : Type 0 where
    end : Fields
    field : Text → Json → Fields → Fields

unfoldable pub get_field : Text → Fields → Option Json
get_field k end = none
get_field k (field j v rest) = if text_eq j k then some v else get_field k rest

-- `val.get(key)`
unfoldable pub get : Json → Text → Option Json
unfolding get_field
get (obj fields) k = get_field k fields
get _ k = none

abbrev u64_of : Json → Option ℕ
u64_of (num n) = some n
u64_of _ = none

abbrev str_of : Json → Option Text
str_of (str s) = some s
str_of _ = none

-- `.and_then(Value::as_u64)`
abbrev pub as_u64 : Option Json → Option ℕ
as_u64 o = and_then o u64_of

-- `.and_then(Value::as_str)`
abbrev pub as_str : Option Json → Option Text
as_str o = and_then o str_of

-- `json!({ … })` and `json!([ … ])`
abbrev fields : List (Text × Json) → Fields
fields [] = end
fields ((k, v) ∷ rest) = field k v (fields rest)

abbrev pub object : List (Text × Json) → Json
object entries = obj (fields entries)

abbrev items : List Json → Items
items [] = nil
items (v ∷ vs) = cons v (items vs)

abbrev pub array : List Json → Json
array vs = arr (items vs)

abbrev pub opt_str : Option Text → Json
opt_str none = null
opt_str (some t) = str t

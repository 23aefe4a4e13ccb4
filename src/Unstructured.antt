-- ===== src/Unstructured.antt =====
-- The values of `map[string]interface{}` that an `unstructured.Unstructured` object holds, with
-- the type assertions on them.
use turtles_etcd_restore.Base.{String, Bool, Option, none, some, ◌==◌, if◌then◌else◌}

mutual
  pub data Value : Type 0 where
    null : Value
    boolean : Bool → Value
    text : String → Value
    integer : String → Value
    float : String → Value
    array : Items → Value
    object : Fields → Value

  pub data Items : Type 0 where
    nil : Items
    cons : Value → Items → Items

  pub data Fields : Type 0 where
    end : Fields
    field : String → Value → Fields → Fields

-- `m[key]`; a key that is missing reads as nil.
unfoldable pub lookup : String → Fields → Value
lookup key end = null
lookup key (field k v rest) = if k == key then v else lookup key rest

-- `v.(map[string]interface{})`
abbrev pub as_object : Value → Option Fields
as_object (object fields) = some fields
as_object _ = none

-- `v.(string)`
abbrev pub as_text : Value → Option String
as_text (text s) = some s
as_text _ = none

-- `v.(bool)`
abbrev pub as_boolean : Value → Option Bool
as_boolean (boolean b) = some b
as_boolean _ = none

-- What the verb `%T` prints.
unfoldable pub type_name : Value → String
type_name null = "<nil>"
type_name (boolean b) = "bool"
type_name (text s) = "string"
type_name (integer s) = "int64"
type_name (float s) = "float64"
type_name (array xs) = "[]interface {}"
type_name (object fields) = "map[string]interface {}"

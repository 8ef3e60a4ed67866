-- ===== src/Core/Json.antt =====
-- serde_json's `Value`, the type of token claims, of configuration and of messages. An object is a
-- list of its entries in the order of its map.
use overlay_mcp.Base.{String, ℕ, Bool, true, false, Option, none, some, List, [], ◌∷◌}

pub data Number : Type 0 where
  pos_int : ℕ → Number
  neg_int : ℕ → Number
  float : String → Number

mutual
  pub data Value : Type 0 where
    null : Value
    bool : Bool → Value
    number : Number → Value
    string : String → Value
    array : Items → Value
    object : Fields → Value

  pub data Items : Type 0 where
    nil : Items
    cons : Value → Items → Items

  pub data Fields : Type 0 where
    end : Fields
    field : String → Value → Fields → Fields

abbrev pub items : Items → List Value
items nil = []
items (cons v vs) = v ∷ items vs

abbrev pub as_str : Value → Option String
as_str (string s) = some s
as_str _ = none

abbrev pub as_array : Value → Option (List Value)
as_array (array vs) = some (items vs)
as_array _ = none

abbrev pub is_string : Value → Bool
is_string (string _) = true
is_string _ = false

abbrev pub is_number : Value → Bool
is_number (number _) = true
is_number _ = false

abbrev pub is_boolean : Value → Bool
is_boolean (bool _) = true
is_boolean _ = false

abbrev pub is_object : Value → Bool
is_object (object _) = true
is_object _ = false

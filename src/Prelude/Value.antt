-- ===== src/Prelude/Value.antt =====
-- Go's `any` where the code carries JSON-like payloads: `map[string]any`, numbers, texts.
use Prim.Native.Nat.{ℕ}
use Prim.Native.String.{String}
use mathlib.Core.Bool.{Bool}
use mathlib.Core.List.{List, [], ◌∷◌}
use online_game.Prelude.Equality.{◌==◌, string_eq}
use online_game.Prelude.Int.{ℤ}
use online_game.Prelude.Tests.{if◌then◌else◌}

-- A `float64` is only handed on, so it is its bit pattern.
mutual
  pub data Value : Type 0 where
    nil : Value
    bool : Bool → Value
    int : ℤ → Value
    float : ℕ → Value
    str : String → Value
    arr : Items → Value
    obj : Fields → Value

  pub data Items : Type 0 where
    end : Items
    item : Value → Items → Items

  pub data Fields : Type 0 where
    stop : Fields
    field : String → Value → Fields → Fields

abbrev fields_of : List (String × Value) → Fields
fields_of [] = stop
fields_of ((k, v) ∷ rest) = field k v (fields_of rest)

-- `map[string]any{...}`
abbrev pub object : List (String × Value) → Value
object entries = obj (fields_of entries)

field_at : String → Fields → Value
field_at key stop = nil
field_at key (field k v rest) = if k == key then v else field_at key rest

-- `m, _ := v.(map[string]any); m[key]`: nil for a missing key and for a value of another type.
unfoldable pub value_at : String → Value → Value
unfolding field_at
value_at key (obj fields) = field_at key fields
value_at key v = nil

-- `s, _ := v.(string)`
unfoldable pub as_string : Value → String
as_string (str s) = s
as_string v = ""

-- `v.([]any)` and back.
abbrev pub items_of : List Value → Items
items_of [] = end
items_of (v ∷ vs) = item v (items_of vs)

abbrev pub list_of : Items → List Value
list_of end = []
list_of (item v rest) = v ∷ list_of rest

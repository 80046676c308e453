-- ===== src/Value.antt =====
-- The Python values that a JSON document is made of: `Any` in the contracts, and what `model_dump`
-- gives. A float is carried as its 64-bit pattern and never computed with. Lists and dicts stand in
-- the block, since a data type may not hold a list of itself.
use autocad_mechanical_harne.Base.{ℕ, String, Bool, Option, none, some, List, [], ◌∷◌}

mutual
  pub data Value : Type 0 where
    null : Value
    bool : Bool → Value
    int : ℕ → Value
    negative_int : ℕ → Value
    float : ℕ → Value
    str : String → Value
    array : Values → Value
    dict : Fields → Value

  pub data Values : Type 0 where
    nil : Values
    cons : Value → Values → Values

  pub data Fields : Type 0 where
    end : Fields
    field : String → Value → Fields → Fields

abbrev pub option_str : Option String → Value
option_str none = null
option_str (some s) = str s

abbrev pub values_of : List Value → Values
values_of [] = nil
values_of (v ∷ vs) = cons v (values_of vs)

-- The entries of a dict whose values are values, as a Python dict.
abbrev pub fields_of : List (String × Value) → Fields
fields_of [] = end
fields_of ((k, v) ∷ m) = field k v (fields_of m)

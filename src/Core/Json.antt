-- ===== src/Core/Json.antt =====
-- `JsonValue` of pydantic, as far as the environments build and read it.
use levelup_bench.Prelude.{
  ℕ, String, Bool, List, [], ◌∷◌, Option, none, some, ◌==◌, string_eq, if◌then◌else◌,
}
use levelup_bench.Prelude.Int.{ℤ, pos}

mutual
  pub data JsonValue : Type 0 where
    null : JsonValue
    boolean : Bool → JsonValue
    int : ℤ → JsonValue
    -- The float `a / b`.
    ratio : ℕ → ℕ → JsonValue
    text : String → JsonValue
    array : Items → JsonValue
    object : Fields → JsonValue

  pub data Items : Type 0 where
    nil : Items
    item : JsonValue → Items → Items

  -- A dict with text keys.
  pub data Fields : Type 0 where
    no_fields : Fields
    field : String → JsonValue → Fields → Fields

-- A whole number that is not negative.
abbrev pub number : ℕ → JsonValue
number n = int (pos n)

abbrev pub texts : List String → Items
texts [] = nil
texts (s ∷ rest) = item (text s) (texts rest)

-- `config.get(key)`
abbrev pub get : String → Fields → Option JsonValue
get key no_fields = none
get key (field k v rest) = if k == key then some v else get key rest

-- `isinstance(value, str)`, on what `get` returns.
abbrev pub as_text : Option JsonValue → Option String
as_text (some (text s)) = some s
as_text (some null) = none
as_text (some (boolean b)) = none
as_text (some (int n)) = none
as_text (some (ratio a b)) = none
as_text (some (array xs)) = none
as_text (some (object fs)) = none
as_text none = none

-- ===== src/Json.antt =====
-- A JSON value as `encoding/json` gives it to the code in an `interface{}`: the claims of a token.
use agentcube.Prelude.{
  String, ℤ, pos, Bool, true, Option, none, some, List, [], ◌∷◌, ◌==◌, if◌then◌else◌,
}

mutual
  pub data Json : Type 0 where
    null : Json
    boolean : Bool → Json
    -- A `float64`: whether it is 0, and its `int64`.
    number : Bool → ℤ → Json
    text : String → Json
    array : Items → Json
    object : Fields → Json

  pub data Items : Type 0 where
    nil : Items
    item : Json → Items → Items

  pub data Fields : Type 0 where
    end : Fields
    field : String → Json → Fields → Fields

-- `v, ok := m[key]`
unfoldable pub member : String → Fields → Option Json
member key end = none
member key (field k v fields) = if k == key then some v else member key fields

-- `s, _ := v.(string)` of a member
abbrev as_text : Option Json → String
as_text (some (text s)) = s
as_text _ = ""

unfoldable pub text_claim : String → Fields → String
text_claim key fields = as_text (member key fields)

-- `f, _ := v.(float64)` of a member
abbrev as_number : Option Json → Bool × ℤ
as_number (some (number is_zero i)) = (is_zero, i)
as_number _ = (true, pos 0)

unfoldable pub number_claim : String → Fields → Bool × ℤ
number_claim key fields = as_number (member key fields)

-- The texts of an array; other items are passed over.
unfoldable pub texts : Items → List String
texts nil = []
texts (item (text s) items) = s ∷ texts items
texts (item _ items) = texts items

-- ===== src/Framework/Json.antt =====
-- The values that `json.loads` gives, and how the program looks into them. The parser of the standard
-- library is a parameter of the definitions that use it.
use drbd9_tests.Prelude.{
  ℕ, zero, suc, Bool, Option, none, some, String, ◌==◌, string_eq, if◌then◌else◌,
}
use drbd9_tests.Results.{Result, ok, err, key_error, index_error, type_error}

mutual
  pub data Json : Type 0 where
    null : Json
    boolean : Bool → Json
    number : ℕ → Json
    -- A negative number or one with a fraction or an exponent, as it is written.
    other_number : String → Json
    text : String → Json
    array : Items → Json
    object : Fields → Json

  pub data Items : Type 0 where
    no_items : Items
    item : Json → Items → Items

  pub data Fields : Type 0 where
    no_fields : Fields
    field : String → Json → Fields → Fields

-- The last field with a name counts.
get_field : String → Fields → Option Json
get_field key no_fields = none
get_field key (field name value rest) =
    let later = get_field key rest in
    elim later [ some v ↦ some v | none ↦ if key == name then some value else none ]

get_item : ℕ → Items → Option Json
get_item i no_items = none
get_item zero (item x xs) = some x
get_item (suc i) (item x xs) = get_item i xs

char_at : ℕ → String → Option Json
char_at i String.[] = none
char_at zero (String.◌∷◌ c s) = some (text (String.◌∷◌ c String.[]))
char_at (suc i) (String.◌∷◌ c s) = char_at i s

found : Option Json → Result Json
found none = err index_error
found (some v) = ok v

-- `value[key]` for a text
unfoldable pub member : String → Json → Result Json
unfolding get_field
member key (object fs) = elim (get_field key fs) [ none ↦ err key_error | some v ↦ ok v ]
member key other = err type_error

-- `value[i]` for a number
unfoldable pub element : ℕ → Json → Result Json
unfolding get_item char_at found
element i (array items) = found (get_item i items)
element i (text s) = found (char_at i s)
element i (object fs) = err key_error
element i other = err type_error

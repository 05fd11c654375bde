-- ===== src/Json.antt =====
-- The values of Python's json module. `str`, `int` and the truth of a float are Python's: a record
-- that the definitions take.
use claude_email.Prelude.{
  String, Bool, true, false, not, Option, none, some, str_eq, if◌then◌else◌, ℤ, pos, eqb_ℤ,
}

-- A float is known by its numeral. Objects have each key once.
mutual
  pub data Json : Type 0 where
    null : Json
    bool : Bool → Json
    int : ℤ → Json
    float : (numeral : String) → Json
    text : String → Json
    array : Items → Json
    object : Fields → Json

  pub data Items : Type 0 where
    no_items : Items
    item : Json → Items → Items

  pub data Fields : Type 0 where
    no_fields : Fields
    field : (key : String) → Json → Fields → Fields

-- What `int(value)` does: it returns, raises TypeError or ValueError, or raises OverflowError, as it
-- does for an infinite float.
pub data Conversion : Type 0 where
  converted : ℤ → Conversion
  refused : Conversion
  overflow : Conversion

pub record Python : Type 0 where
  pub str : Json → String
  pub repr : Json → String
  pub int_of : Json → Conversion
  pub float_truth : String → Bool

-- `data.get(key)`, None without one
unfoldable pub get_field : String → Fields → Json
get_field key no_fields = null
get_field key (field k v rest) = let found = get_field key rest in if str_eq k key then v else found

unfoldable pub truthy : Python → Json → Bool
truthy py null = false
truthy py (bool b) = b
truthy py (int n) = not (eqb_ℤ n (pos 0))
truthy py (float s) = py.float_truth s
truthy py (text s) = not (str_eq s "")
truthy py (array no_items) = false
truthy py (array (item _ _)) = true
truthy py (object no_fields) = false
truthy py (object (field _ _ _)) = true

-- `str(value or "")`
unfoldable pub text_or_empty : Python → Json → String
unfolding truthy
text_or_empty py j = if truthy py j then py.str j else ""

-- `value if isinstance(value, dict) else {}`
abbrev pub fields_or_empty : Json → Fields
fields_or_empty (object fs) = fs
fields_or_empty _ = no_fields

-- The number of a value that is an int, or a bool, which Python counts as one.
abbrev pub number : Json → Option ℤ
number (int n) = some n
number (bool true) = some (pos 1)
number (bool false) = some (pos 0)
number _ = none

-- Lists and dicts cannot be hashed.
abbrev pub hashable : Json → Bool
hashable (array _) = false
hashable (object _) = false
hashable _ = true

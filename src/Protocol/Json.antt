-- ===== src/Protocol/Json.antt =====
-- What litecast/protocol.py uses of Python's text encoding and of its module `json`: JSON values,
-- and the four functions as a parameter.
use litecast.Common.{
  Bool, true, false, ◌&&◌, ◌||◌, Option, none, some, Text, Bytes, ℤ, text_eq, if◌then◌else◌,
}

-- A number with a fraction or an exponent is its text.
mutual
  pub data Json : Type 0 where
    null : Json
    boolean : Bool → Json
    integer : ℤ → Json
    real : Text → Json
    text : Text → Json
    array : Items → Json
    object : Fields → Json

  pub data Items : Type 0 where
    end : Items
    item : Json → Items → Items

  pub data Fields : Type 0 where
    done : Fields
    field : Text → Json → Fields → Fields

-- `str.encode("utf-8")`, which refuses surrogates, and `bytes.decode("utf-8")`; `json.dumps` with
-- sorted keys and the compact separators, to ASCII and (behind `encode`) to UTF-8, and
-- `json.loads` of decoded bytes, which yields a dictionary for an object.
pub record Codec : Type 0 where
  pub encode : Text → Option Bytes
  pub decode : Bytes → Option Text
  pub dumps : Json → Bytes
  pub dumps_utf8 : Json → Option Bytes
  pub loads : Bytes → Option Json

unfoldable pub find_field : Text → Fields → Option Json
find_field key done = none
find_field key (field name v fields) =
    let rest = find_field key fields in if text_eq name key then some v else rest

-- Every key of the dictionary satisfies the test.
unfoldable pub all_keys : (Text → Bool) → Fields → Bool
all_keys test done = true
all_keys test (field name v fields) = test name && all_keys test fields

has_field : Text → Fields → Bool
unfolding find_field
has_field key fields = elim (find_field key fields) [ none ↦ false | some _ ↦ true ]

-- `set(value) == {a, b}`
unfoldable pub has_exactly : Text → Text → Fields → Bool
unfolding all_keys has_field
has_exactly a b fields =
    all_keys (λ name. text_eq name a || text_eq name b) fields
    && (has_field a fields && has_field b fields)

-- ===== src/Policy/Value.antt =====
-- The values of a JSON document, as lib/intelligence/policy.py reads them.
use stocks_agent.Common.{
  ℕ, Bool, true, false, ◌&&◌, Option, none, some, List, [], ◌∷◌, String, ◌==◌, if◌then◌else◌,
  str_eq, contains, Result, ok, raise,
}

-- A number that is no natural one is given with the natural number that it equals, if any (`1.0`).
mutual
  pub data Value : Type 0 where
    null : Value
    boolean : Bool → Value
    integer : ℕ → Value
    real : (equals : Option ℕ) → Value
    text : String → Value
    sequence : Values → Value
    mapping : Fields → Value

  pub data Values : Type 0 where
    end : Values
    item : Value → Values → Values

  pub data Fields : Type 0 where
    no_field : Fields
    field : (key : String) → Value → Fields → Fields

pub data PolicyError : Type 0 where
  missing_setting not_an_object negative_or_no_integer : (name : String) → PolicyError
  phases_not_approved packet_not_an_object packet_keys packet_too_large keys_not_approved :
      PolicyError
  identifiers_not_reviewed identifiers_too_large providers_not_approved domains_not_approved :
      PolicyError
  capability_version theme_version baseline_not_reviewed adaptive_too_large : PolicyError
  must_be_false must_be_true : (name : String) → PolicyError
  ceiling_too_large alpha_too_large ceiling_too_small : PolicyError
  budget_providers budget_too_large : PolicyError

unfoldable pub lookup : String → Fields → Option Value
lookup key no_field = none
lookup key (field k value fields) = if str_eq k key then some value else lookup key fields

-- `fields[key] = value`
unfoldable pub set_field : String → Value → Fields → Fields
set_field key value no_field = field key value no_field
set_field key value (field k old fields) =
    if str_eq k key then field k value fields else field k old (set_field key value fields)

unfoldable pub keys_of : Fields → List String
keys_of no_field = []
keys_of (field k value fields) = k ∷ keys_of fields

unfoldable pub all_in : List String → List String → Bool
all_in names [] = true
all_in names (key ∷ keys) = contains key names && all_in names keys

-- `set(value) == {…}`
unfoldable pub has_exactly : List String → Fields → Bool
has_exactly names fields = all_in names (keys_of fields) && all_in (keys_of fields) names

-- `value == [texts…]`
unfoldable pub are_texts : Values → List String → Bool
are_texts end [] = true
are_texts end (t ∷ texts) = false
are_texts (item (text s) values) (t ∷ texts) = str_eq s t && are_texts values texts
are_texts (item _ values) _ = false

unfoldable pub is_text_list : Value → List String → Bool
is_text_list (sequence values) texts = are_texts values texts
is_text_list _ texts = false

-- `value == 1`, which `True` and `1.0` satisfy too.
unfoldable pub equals_one : Value → Bool
equals_one (integer n) = n == 1
equals_one (boolean b) = b
equals_one (real (some n)) = n == 1
equals_one _ = false

-- `value is False`, `value is True`
unfoldable pub is_boolean : Bool → Value → Bool
is_boolean true (boolean b) = b
is_boolean false (boolean true) = false
is_boolean false (boolean false) = true
is_boolean _ _ = false

-- `_required`
unfoldable pub required_in : String → Option Value → Result PolicyError Value
required_in key none = raise (missing_setting key)
required_in key (some value) = ok value

unfoldable pub required : Fields → String → Result PolicyError Value
required parent key = required_in key (lookup key parent)

-- `_mapping`
unfoldable pub mapping_in : String → Option Value → Result PolicyError Fields
mapping_in key none = raise (missing_setting key)
mapping_in key (some (mapping fields)) = ok fields
mapping_in key (some _) = raise (not_an_object key)

unfoldable pub mapping_of : Fields → String → Result PolicyError Fields
mapping_of parent key = mapping_in key (lookup key parent)

-- `_nonnegative_int`
unfoldable pub nonnegative_int : String → Value → Result PolicyError ℕ
nonnegative_int name (integer n) = ok n
nonnegative_int name _ = raise (negative_or_no_integer name)

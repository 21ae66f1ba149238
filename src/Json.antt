-- ===== src/Json.antt =====
-- JSON values as Python's `json` holds them, and the `dict` and truth operations that the code of
-- common/ and engine/ uses on them (common/utils.py: coerce_dict).
use warden_core.Prelude.{
  ℕ, String, Bool, true, false, not, Option, none, some, List, [], ◌∷◌, ◌==◌, eqb, if◌then◌else◌,
}

-- A number that is no natural number is kept by its text, and counts as true.
mutual
  pub data Json : Type 0 where
    null : Json
    bool : Bool → Json
    num : ℕ → Json
    number : String → Json
    str : String → Json
    arr : Items → Json
    obj : Fields → Json

  pub data Items : Type 0 where
    nil : Items
    cons : Json → Items → Items

  pub data Fields : Type 0 where
    end : Fields
    field : String → Json → Fields → Fields

abbrev pub field_value : String → Fields → Option Json
field_value k end = none
field_value k (field j v fs) = if j == k then some v else field_value k fs

abbrev pub with_field : String → Json → Fields → Fields
with_field k v end = field k v end
with_field k v (field j w fs) = if j == k then field k v fs else field j w (with_field k v fs)

abbrev pub without_field : String → Fields → Fields
without_field k end = end
without_field k (field j w fs) =
    let rest = without_field k fs in if j == k then rest else field j w rest

abbrev pub fields_of : Json → Fields
fields_of (obj fs) = fs
fields_of _ = end

-- `value.get(k)` on a dict; a value of another kind has no key.
abbrev pub get_key : String → Json → Option Json
get_key k j = field_value k (fields_of j)

-- `isinstance(value, dict)`
abbrev pub is_dict : Json → Bool
is_dict (obj fs) = true
is_dict _ = false

-- coerce_dict of common/utils.py
unfoldable pub coerce_dict : Json → Json
coerce_dict j = if is_dict j then j else obj end

-- `dict(value)` of a mapping, with one key set
abbrev pub set_key : String → Json → Json → Json
set_key k v j = obj (with_field k v (fields_of j))

abbrev pub del_key : String → Json → Json
del_key k j = obj (without_field k (fields_of j))

-- `bool(value)`
abbrev pub truthy : Json → Bool
truthy null = false
truthy (bool b) = b
truthy (num n) = not (eqb n 0)
truthy (number s) = true
truthy (str s) = not (s == "")
truthy (arr nil) = false
truthy (arr _) = true
truthy (obj end) = false
truthy (obj _) = true

-- `value.get(k) or {}` for an optional value
abbrev pub dict_or_empty : Option Json → Json
dict_or_empty none = obj end
dict_or_empty (some j) = if truthy j then j else obj end

abbrev pub empty_dict : Json
empty_dict = obj end

abbrev pub items : Json → List Json
items (arr nil) = []
items (arr (cons x xs)) = x ∷ items (arr xs)
items _ = []

-- ===== src/Repositories/Json.antt =====
-- JSON documents, as Python reads them: `dict.get`, `d[key]`, `str`, `bool` and `isinstance`.
use gotfr_sec.Prelude.{Bool, true, false, Option, none, some, List, [], ◌∷◌, ◌==◌, if◌then◌else◌}
use gotfr_sec.Prelude.Text.{Text, text, text_eq, truthy}
use gotfr_sec.Domain.Errors.{Result, ok, err, key_error}

-- A number is known by whether it differs from zero, and by its text.
mutual
  pub data Json : Type 0 where
    null : Json
    bool : Bool → Json
    number : Bool → Text → Json
    str : Text → Json
    array : Items → Json
    object : Fields → Json

  pub data Items : Type 0 where
    nil : Items
    cons : Json → Items → Items

  -- The entries of a `dict`, each key once.
  pub data Fields : Type 0 where
    end : Fields
    field : Text → Json → Fields → Fields

-- The entry of a key.
unfoldable pub entry : Text → Fields → Option Json
entry key end = none
entry key (field name value rest) = if name == key then some value else entry key rest

-- `data.get(key, default)`.
abbrev pub get_or : Json → Option Json → Json
get_or default none = default
get_or default (some value) = value

-- `data.get(key)`.
unfoldable pub get : Text → Fields → Json
get key fields = get_or null (entry key fields)

abbrev found_or_raise : Text → Option Json → Result Json
found_or_raise key none = err (key_error key)
found_or_raise key (some value) = ok value

-- `data[key]`.
unfoldable pub item : Text → Fields → Result Json
item key fields = found_or_raise key (entry key fields)

-- `bool(value)`.
abbrev pub as_bool : Json → Bool
as_bool null = false
as_bool (bool b) = b
as_bool (number nonzero name) = nonzero
as_bool (str s) = truthy s
as_bool (array nil) = false
as_bool (array (cons _ _)) = true
as_bool (object end) = false
as_bool (object (field _ _ _)) = true

-- `str(value)`; `repr` writes a list or a dictionary.
module _ (repr : Json → Text) where
  abbrev pub as_str : Json → Text
  as_str null = text "None"
  as_str (bool true) = text "True"
  as_str (bool false) = text "False"
  as_str (number nonzero name) = name
  as_str (str s) = s
  as_str (array items) = repr (array items)
  as_str (object fields) = repr (object fields)

  -- `[str(x) for x in items]`.
  unfoldable pub str_items : Items → List Text
  str_items nil = []
  str_items (cons value rest) = as_str value ∷ str_items rest

  -- A text or `None` is kept, any other value becomes its text.
  abbrev pub str_or_none : Json → Option Text
  str_or_none null = none
  str_or_none (str s) = some s
  str_or_none value = some (as_str value)

-- A value that is `None` for Python or a text.
abbrev pub json_option : Option Text → Json
json_option none = null
json_option (some s) = str s

unfoldable pub text_items : List Text → Items
text_items [] = nil
text_items (s ∷ ss) = cons (str s) (text_items ss)

-- ===== src/Json/Reads.antt =====
-- How Python reads a parsed JSON value: `d[key]`, `d.get(key, default)`, and a loop over it. A value
-- that is no object has no text keys.
use Prim.Native.String.{[], ◌∷◌}
use osbuild.Prelude.{
  List, [], ◌∷◌, attribute_error, String, ◌==◌, Option, none, some, if◌then◌else◌, truthy_text,
  Result, ok, err, key_error, type_error,
}
use osbuild.Json.{
  Json, null, bool, num, number, str, arr, obj, Items, nil, cons, Fields, end, field,
}

unfoldable pub find : String → Fields → Option Json
find key end = none
find key (field k v fs) = if k == key then some v else find key fs

abbrev found : Option Json → Result Json
found none = err key_error
found (some v) = ok v

unfoldable pub item : String → Json → Result Json
unfolding find
item key (obj fs) = found (find key fs)
item key null = err type_error
item key (bool b) = err type_error
item key (num n) = err type_error
item key (number s) = err type_error
item key (str s) = err type_error
item key (arr xs) = err type_error

abbrev pub or_default : Json → Option Json → Json
or_default default none = default
or_default default (some v) = v

-- On an object; the calls are behind an access by key, which fails for any other value.
unfoldable pub get_or : String → Json → Json → Json
unfolding find
get_or key default (obj fs) = or_default default (find key fs)
get_or key default _ = default

-- A loop whose body needs an object at once: over an object or a text it sees texts, so only an empty
-- one gets through.
unfoldable pub iterate : Json → Result Items
iterate (arr xs) = ok xs
iterate (obj end) = ok nil
iterate (obj (field k v fs)) = err type_error
iterate (str s) = if truthy_text s then err type_error else ok nil
iterate null = err type_error
iterate (bool b) = err type_error
iterate (num n) = err type_error
iterate (number s) = err type_error

-- `j.get(key)`
unfoldable pub get : String → Json → Result (Option Json)
unfolding find
get key (obj fs) = ok (find key fs)
get key _ = err attribute_error

unfoldable pub entries : Fields → List (String × Json)
entries end = []
entries (field k v fs) = (k, v) ∷ entries fs

-- `j.items()`
unfoldable pub items_of : Json → Result (List (String × Json))
unfolding entries
items_of (obj fs) = ok (entries fs)
items_of _ = err attribute_error

keys_of : Fields → Items
keys_of end = nil
keys_of (field k v fs) = cons (str k) (keys_of fs)

letters : String → Items
letters [] = nil
letters (c ∷ s) = cons (str (c ∷ [])) (letters s)

-- What a `for` loop sees of a value.
unfoldable pub elements : Json → Result Items
unfolding keys_of letters
elements (arr xs) = ok xs
elements (obj fs) = ok (keys_of fs)
elements (str s) = ok (letters s)
elements null = err type_error
elements (bool b) = err type_error
elements (num n) = err type_error
elements (number s) = err type_error

-- ===== src/Lvm2/Metadata.antt =====
-- osbuild/util/lvm2.py: `Metadata`: how a text is read as nested sections, and how these are written.
-- `none` is a call that does not end, or the end of the fuel of a reader.
pub mod Strings
pub mod Reading
use osbuild.Prelude.{
  ℕ, zero, suc, String, Bool, true, false, Option, none, some, List, [], ◌∷◌, ◌++◌, length,
  if◌then◌else◌, same_number, ◌&&◌, ◌||◌, Result, ok, err, type_error, value_error, key_error,
}
use osbuild.Prelude.Int.{ℤ}
use osbuild.Lvm2.Text.{Text, is_space, split, substituted, str_ℤ, int_of}

-- A number with a point keeps its literal. `encode_val` has no branch for it.
mutual
  pub data Value : Type 0 where
    int : ℤ → Value
    float : Text → Value
    text : Text → Value
    array : Items → Value
    section : Entries → Value

  pub data Items : Type 0 where
    nil : Items
    cons : Value → Items → Items

  pub data Entries : Type 0 where
    end : Entries
    entry : Text → Value → Entries → Entries

abbrev pub same_text : Text → Text → Bool
same_text [] [] = true
same_text (c ∷ s) (d ∷ t) = same_number c d && same_text s t
same_text _ _ = false

-- An `OrderedDict`: a write to a key that is there keeps its place.
unfoldable pub put : Text → Value → Entries → Entries
put k v end = entry k v end
put k v (entry j w rest) = if same_text j k then entry j v rest else entry j w (put k v rest)

unfoldable pub items_append : Items → Value → Items
items_append nil v = cons v nil
items_append (cons w rest) v = cons w (items_append rest v)

abbrev pub dict_start : Text
dict_start = b'{' ∷ []

abbrev pub dict_end : Text
dict_end = b'}' ∷ []

abbrev pub array_start : Text
array_start = b'[' ∷ []

abbrev pub array_end : Text
array_end = b']' ∷ []

abbrev pub string_mark : Text
string_mark = b'"' ∷ []

strip_start : Text → Text
strip_start [] = []
strip_start (c ∷ rest) = if is_space c then strip_start rest else c ∷ rest

abbrev kept_end : ℕ → Text → Text
kept_end c [] = if is_space c then [] else c ∷ []
kept_end c (d ∷ more) = c ∷ d ∷ more

strip_end : Text → Text
strip_end [] = []
strip_end (c ∷ rest) = kept_end c (strip_end rest)

-- `text.strip()`
unfoldable pub strip : Text → Text
unfolding strip_start strip_end
strip s = strip_end (strip_start s)

abbrev pub Reading : Type 0 → Type 0
Reading A = Option (Result (A × List Text))

module _ {A B : Type 0} where
  infixl 5 ◌>>=◌
  abbrev pub ◌>>=◌ : Reading A → (A × List Text → Reading B) → Reading B
  none >>= next = none
  some (err e) >>= next = some (err e)
  some (ok read) >>= next = next read

-- `parse_str`. Where the tokens end before the string, the loop goes on for ever.
unfoldable pub parse_str : Text → List Text → Reading Value
parse_str result [] = none
parse_str result (val ∷ rest) =
    let more = parse_str (result ++ b' ' ∷ val) rest in
    if same_text val string_mark then some (ok (text (strip result), rest)) else more

abbrev pub or_value_error : Option ℤ → List Text → Reading Value
or_value_error none rest = some (err value_error)
or_value_error (some n) rest = some (ok (int n, rest))

abbrev pub has_point : Text → Bool
has_point [] = false
has_point (c ∷ rest) = if same_number c b'.' then true else has_point rest

abbrev pub first_token : List Text → Option Text
first_token [] = none
first_token (name ∷ rest) = some name

abbrev pub named : Option Text → Reading Entries → Option (Result (Option Text × Entries))
named name none = none
named name (some (err e)) = some (err e)
named name (some (ok (es, rest))) = some (ok (name, es))

-- `is_float` is whether Python's `float` takes a text.
module _ (is_float : Text → Bool) where
  unfoldable pub parse_type : List Text → Reading Value
  unfolding parse_str
  parse_type [] = some (err type_error)
  parse_type (val ∷ rest) =
      if same_text val string_mark
      then parse_str [] rest
      else (if has_point val
          then (if is_float val then some (ok (float val, rest)) else some (err value_error))
          else or_value_error (int_of val) rest)

  -- The tokens of these start with `val`, the one at hand.
  unfoldable pub parse_array : ℕ → Items → List Text → Reading Value
  parse_array zero result tokens = none
  parse_array (suc f) result [] = some (err type_error)
  parse_array (suc f) result (val ∷ rest) =
      let more =
        parse_type (val ∷ rest) >>= λ (v, behind). parse_array f (items_append result v) behind in
      if same_text val array_end then some (ok (array result, rest)) else more

  unfoldable mutual
    pub parse_section : ℕ → Entries → List Text → Reading Entries
    parse_section zero result tokens = none
    parse_section (suc f) result [] = some (ok (result, []))
    parse_section (suc f) result (val ∷ rest) =
        let more =
          parse_value f rest >>= λ (v, behind). parse_section f (put val v result) behind in
        if same_text val [] || same_text val dict_end then some (ok (result, rest)) else more

    pub parse_value : ℕ → List Text → Reading Value
    parse_value zero tokens = none
    parse_value (suc f) [] = some (err type_error)
    parse_value (suc f) (val ∷ rest) =
        let nested = parse_section f end rest >>= λ (es, behind). some (ok (section es, behind)) in
        let listed = parse_array f nil rest in
        if same_text val dict_start
        then nested
        else (if same_text val array_start then listed else parse_type (val ∷ rest))

  -- The name is that of the first entry, the volume group.
  unfoldable pub decode_data : Text → Option (Result (Option Text × Entries))
  decode_data raw =
      let tokens = split [] (substituted raw) in
      named (first_token tokens) (parse_section (suc (length tokens)) end tokens)

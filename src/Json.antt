-- ===== src/Json.antt =====
-- The JSON values that manifests carry as options. A number that is no natural keeps its literal text.
pub mod Reads
use osbuild.Prelude.{
  ℕ, zero, suc, String, Bool, true, false, List, [], ◌∷◌, Option, none, some, if◌then◌else◌,
  truthy_text,
}

mutual
  pub data Json : Type 0 where
    null : Json
    bool : Bool → Json
    num : ℕ → Json
    number : String → Json
    str : String → Json
    arr : Items → Json
    obj : Fields → Json

  pub data Items : Type 0 where
    nil : Items
    cons : Json → Items → Items

  pub data Fields : Type 0 where
    end : Fields
    field : String → Json → Fields → Fields

-- Python's truth value of a parsed JSON value. A number in `number` is not zero.
abbrev pub truthy : Json → Bool
truthy null = false
truthy (bool b) = b
truthy (num zero) = false
truthy (num (suc n)) = true
truthy (number s) = true
truthy (str s) = truthy_text s
truthy (arr nil) = false
truthy (arr (cons x xs)) = true
truthy (obj end) = false
truthy (obj (field k v fs)) = true

-- `options or {}`
abbrev pub or_empty : Json → Json
or_empty j = if truthy j then j else obj end

abbrev pub texts : List String → Items
texts [] = nil
texts (s ∷ ss) = cons (str s) (texts ss)

abbrev pub fields : List (String × Json) → Fields
fields [] = end
fields ((k, v) ∷ d) = field k v (fields d)

abbrev pub text_fields : List (String × String) → Fields
text_fields [] = end
text_fields ((k, v) ∷ d) = field k (str v) (text_fields d)

-- A text, or `None`.
abbrev pub opt_text : Option String → Json
opt_text none = null
opt_text (some s) = str s

-- An entry that is written only where the value counts as true.
abbrev pub when_truthy : String → Json → List (String × Json)
when_truthy key v = if truthy v then (key, v) ∷ [] else []

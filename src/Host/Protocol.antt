-- ===== src/Host/Protocol.antt =====
-- osbuild/host.py: `ServiceProtocol`, the messages between osbuild and a service. A message is JSON of
-- any kind. An exception is its class and its text; what Python itself writes in a text is a parameter.
use text.Mathlib.Text.{find?}
use osbuild.Prelude.{
  String, ◌==◌, Bool, true, false, Option, none, some, List, [], ◌∷◌, if◌then◌else◌, truthy_text,
  Error, attribute_error, type_error, key_error,
}
use osbuild.Prelude
use osbuild.Json.{Json, str, arr, obj, Items, nil, cons, end, field, truthy}
use osbuild.Json.Reads.{get, item, find}

pub record Raised : Type 0 where
  pub name : String
  pub text : String

pub data Outcome (A : Type 0) : Type 0 where
  raised : Raised → Outcome A
  returned : A → Outcome A

module _ {A B : Type 0} where
  infixl 5 ◌>>=◌
  abbrev pub ◌>>=◌ : Outcome A → (A → Outcome B) → Outcome B
  raised e >>= next = raised e
  returned a >>= next = next a

-- `f"..."`, the text of an exception of the library about a value, and
-- `"".join(traceback.format_tb(tb))` for an exception.
pub record Texts : Type 0 where
  pub format : List Json → String
  pub about : Error → Json → String
  pub format_tb : Raised → String

abbrev pub protocol_error : String → Raised
protocol_error text = record { name = "ProtocolError"; text = text }

abbrev pub class_name : Error → String
class_name Prelude.value_error = "ValueError"
class_name Prelude.key_error = "KeyError"
class_name Prelude.index_error = "IndexError"
class_name Prelude.type_error = "TypeError"
class_name Prelude.runtime_error = "RuntimeError"
class_name Prelude.assertion_error = "AssertionError"
class_name Prelude.miss_error = "MissError"
class_name Prelude.os_error = "OSError"
class_name Prelude.attribute_error = "AttributeError"
class_name Prelude.file_exists_error = "FileExistsError"
class_name Prelude.unbound_local_error = "UnboundLocalError"
class_name Prelude.struct_error = "error"
class_name Prelude.unicode_error = "UnicodeDecodeError"

abbrev pub typed : String → Json → Json
typed kind content = obj (field "type" (str kind) (field "data" content end))

abbrev is_some : {A : Type 0} → Option A → Bool
is_some none = false
is_some (some a) = true

unfoldable pub is_text : String → Json → Bool
is_text s (str k) = k == s
is_text s j = false

has_item : String → Items → Bool
unfolding is_text
has_item s nil = false
has_item s (cons j js) = if is_text s j then true else has_item s js

module _ (t : Texts) where
  -- A read that the library refuses for a value.
  abbrev pub library : {A : Type 0} → Json → Prelude.Result A → Outcome A
  library j (Prelude.err e) = raised (record { name = class_name e; text = t.about e j })
  library j (Prelude.ok a) = returned a

  -- `v = d.get(key)`, and an error with that text if it counts as false.
  abbrev needed : String → Option Json → Outcome Json
  needed text none = raised (protocol_error text)
  needed text (some v) = if truthy v then returned v else raised (protocol_error text)

  unfoldable pub decode_message : Json → Outcome (Json × Json)
  unfolding get
  decode_message msg =
      if truthy msg
      then (do
        kind ← library msg (get "type" msg)
        t' ← needed "'type' field missing" kind
        content ← library msg (get "data" msg)
        d ← needed "'data' field missing" content
        returned (t', d))
      else raised (protocol_error "message empty")

  abbrev or_empty_list : Option Json → Json
  or_empty_list none = arr nil
  or_empty_list (some args) = args

  unfoldable pub decode_method : Json → Outcome (Json × Json)
  unfolding get
  decode_method d = do
    found ← library d (get "name" d)
    name ← needed "'name' field missing" found
    args ← library d (get "args" d)
    returned (name, or_empty_list args)

  -- `"reply" in msg`: a key, an item, or a part of a text.
  abbrev holds : String → Json → Outcome Bool
  holds s (obj fs) = returned (is_some (find s fs))
  holds s (arr xs) = returned (has_item s xs)
  holds s (str k) = returned (is_some (find? k s))
  holds s j = library j (Prelude.err type_error)

  abbrev checked : Bool → Json → Outcome Json
  checked true msg = library msg (item "reply" msg)
  checked false msg = raised (protocol_error "'reply' field missing")

  unfoldable pub decode_reply : Json → Outcome Json
  unfolding has_item find item
  decode_reply msg = holds "reply" msg >>= λ there. checked there msg

  unfoldable pub decode_exception : Json → Outcome (Json × Json × Json)
  unfolding item
  decode_exception d = do
    name ← library d (item "name" d)
    value ← library d (item "value" d)
    tb ← library d (item "backtrace" d)
    returned (name, value, tb)

  unfoldable pub encode_exception : Raised → Json
  encode_exception e = typed "exception" (
      obj (
        field "name" (str e.name)
          (field "value" (str e.text) (field "backtrace" (str (t.format_tb e)) end))))

unfoldable pub encode_method : Json → Json → Json
encode_method name args = typed "method" (obj (field "name" name (field "args" args end)))

unfoldable pub encode_reply : Json → Json
encode_reply reply = typed "reply" (obj (field "reply" reply end))

unfoldable pub encode_signal : Json → Json
encode_signal sig = typed "signal" (obj (field "reply" sig end))

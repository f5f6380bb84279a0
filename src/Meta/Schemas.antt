-- ===== src/Meta/Schemas.antt =====
-- osbuild/meta.py: validation errors and results, `Schema`, and the schemata of `Index`. `show` is
-- `str` of a number. What `jsonschema` does is the parameter `Validator`: the error that
-- `check_schema` raises for a schema, if it does, and the errors of a target under a schema.
pub mod Accepts
pub mod Cached
use Prim.Native.String
use text.Mathlib.Text.{find?}
use osbuild.Prelude.{
  ℕ, String, ◌==◌, Bool, true, false, ◌&&◌, Option, none, some, List, [], ◌∷◌, ◌++◌, if◌then◌else◌,
  opt_eq, truthy_name, Result, ok, err, value_error, index_error, runtime_error, type_error, ◌>>=◌,
}
use osbuild.Json.{Json, bool, num, str, arr, obj, Items, nil, cons, end, fields, truthy}
use osbuild.Meta.Runners.{le_text}

-- An element of the path of an error.
pub data Step : Type 0 where
  key : String → Step
  position : ℕ → Step

pub record ValidationError : Type 0 where
  pub message : String
  pub path : List Step

pub record ValidationResult : Type 0 where
  pub origin : Option String
  pub errors : List ValidationError

pub record Schema : Type 0 where
  pub schema_data : Option Json
  pub name : Option String
  pub has_validator : Bool

pub record Validator : Type 0 where
  pub check_schema : Json → Option ValidationError
  pub iter_errors : Json → Json → List ValidationError

abbrev pub valid : ValidationResult → Bool
valid r = elim r.errors [ [] ↦ true | e ∷ es ↦ false ]

unfoldable pub rebase : List Step → ValidationError → ValidationError
rebase path e = record e { path = path ++ e.path }

abbrev quoted : String → Option ℕ → String
quoted s none = s
quoted s (some i) = String.◌++◌ "'" (String.◌++◌ s "'")

module _ (show : ℕ → String) where
  step_text : Step → String
  step_text (key s) = String.◌++◌ "." (quoted s (find? s " "))
  step_text (position n) = String.◌++◌ "[" (String.◌++◌ (show n) "]")

  steps_text : List Step → String
  unfolding step_text
  steps_text [] = ""
  steps_text (p ∷ ps) = String.◌++◌ (step_text p) (steps_text ps)

  unfoldable pub error_id : ValidationError → String
  unfolding steps_text
  error_id e = elim e.path [ [] ↦ "." | p ∷ ps ↦ steps_text (p ∷ ps) ]

  -- `__eq__`
  unfoldable pub error_eq : ValidationError → ValidationError → Bool
  error_eq a b = (error_id a == error_id b) && (a.message == b.message)

  known : ValidationError → List ValidationError → Bool
  known e [] = false
  known e (x ∷ xs) = if error_eq e x then true else known e xs

  -- A set of errors, in the order in which they came.
  unfoldable pub add_error : ValidationError → List ValidationError → List ValidationError
  unfolding known
  add_error e errors = if known e errors then errors else errors ++ e ∷ []

  unfoldable pub add : ValidationError → ValidationResult → ValidationResult
  unfolding add_error
  add e r = record r { errors = add_error e r.errors }

  unfoldable pub fail : String → ValidationResult → ValidationResult
  fail msg r = add (record { message = msg; path = [] }) r

  unfoldable pub insert_error : ValidationError → List ValidationError → List ValidationError
  insert_error e [] = e ∷ []
  insert_error e (x ∷ xs) =
      if le_text (error_id e) (error_id x) then e ∷ x ∷ xs else x ∷ insert_error e xs

  -- `__iter__`
  unfoldable pub sorted_errors : List ValidationError → List ValidationError
  unfolding insert_error
  sorted_errors [] = []
  sorted_errors (e ∷ es) = insert_error e (sorted_errors es)

  unfoldable pub merge_errors :
      List Step → List ValidationError → ValidationResult → ValidationResult
  unfolding add rebase
  merge_errors path [] r = r
  merge_errors path (e ∷ es) r = merge_errors path es (add (rebase path e) r)

  unfoldable pub merge : List Step → ValidationResult → ValidationResult → ValidationResult
  unfolding sorted_errors merge_errors
  merge path res r = merge_errors path (sorted_errors res.errors) r

  path_items : List Step → Items
  path_items [] = nil
  path_items (key s ∷ ps) = cons (str s) (path_items ps)
  path_items (position n ∷ ps) = cons (num n) (path_items ps)

  unfoldable pub error_as_dict : ValidationError → Json
  unfolding path_items
  error_as_dict e =
      obj (fields (("message", str e.message) ∷ ("path", arr (path_items e.path)) ∷ []))

  errors_as_dicts : List ValidationError → Items
  unfolding error_as_dict
  errors_as_dicts [] = nil
  errors_as_dicts (e ∷ es) = cons (error_as_dict e) (errors_as_dicts es)

  unfoldable pub result_as_dict : ValidationResult → Json
  unfolding errors_as_dicts
  result_as_dict r = elim (errors_as_dicts (sorted_errors r.errors)) [
    | nil ↦ obj end
    | cons j js ↦ obj (
        fields (
          ("type", str "https://osbuild.org/validation-error")
          ∷ ("title", str "JSON Schema validation failed")
          ∷ ("success", bool false)
          ∷ ("errors", arr (cons j js))
          ∷ []))
  ]

  with_id : String → List ValidationError → List ValidationError
  with_id id [] = []
  with_id id (e ∷ es) = let rest = with_id id es in if error_id e == id then e ∷ rest else rest

  -- `__getitem__`
  unfoldable pub errors_at : String → ValidationResult → Result (List ValidationError)
  unfolding with_id
  errors_at id r = elim (with_id id (sorted_errors r.errors)) [
    | [] ↦ err index_error
    | e ∷ es ↦ ok (e ∷ es)
  ]

  module _ (v : Validator) where
    abbrev pub missing : Option String → String
    missing none = "could not find schema information"
    missing (some name) =
        if name == ""
        then "could not find schema information"
        else String.◌++◌ "could not find schema information for '" (String.◌++◌ name "'")

    abbrev pub no_errors : Schema → ValidationResult
    no_errors schema = record { origin = schema.name; errors = [] }

    abbrev pub checked : Schema → Option ValidationError → ValidationResult × Schema
    checked schema none = (no_errors schema, record schema { has_validator = true })
    checked schema (some e) = (add e (no_errors schema), schema)

    -- `check` of a schema without a validator.
    unfoldable pub first_check : Schema → Option Json → ValidationResult × Schema
    unfolding fail
    first_check schema none = (fail (missing schema.name) (no_errors schema), schema)
    first_check schema (some j) =
        if truthy j
        then checked schema (v.check_schema j)
        else (fail (missing schema.name) (no_errors schema), schema)

    unfoldable pub check : Schema → ValidationResult × Schema
    unfolding first_check
    check schema =
        if schema.has_validator
        then (no_errors schema, schema)
        else first_check schema schema.schema_data

    unfoldable pub add_all : List ValidationError → ValidationResult → ValidationResult
    add_all [] r = r
    add_all (e ∷ es) r = add_all es (add e r)

    abbrev pub errors_of : Option Json → Json → List ValidationError
    errors_of none target = []
    errors_of (some j) target = v.iter_errors j target

    unfoldable pub validate : Json → Schema → Result (ValidationResult × Schema)
    unfolding check add_all
    validate target schema =
        let (res, schema') = check schema in
        if valid res
        then (if schema'.has_validator
            then ok (add_all (errors_of schema'.schema_data target) res, schema')
            else err runtime_error)
        else ok (res, schema')

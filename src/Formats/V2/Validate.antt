-- ===== src/Formats/V2/Validate.antt =====
-- osbuild/formats/v2.py: `validate`. Its nested functions, which walk over the manifest and call for
-- the schema of each module, take that call as the argument `check`: class, name, path and module.
-- The name of a mount in a list is a text.
pub mod Valid
pub mod Walk
pub mod Modules
pub mod Shape
pub mod Total
use osbuild.Prelude.{
  ℕ, zero, suc, String, ◌==◌, Bool, true, false, Option, none, some, List, [], ◌∷◌, ◌++◌,
  if◌then◌else◌, Result, ok, err, type_error, ◌>>=◌,
}
use osbuild.Prelude.Dict
use osbuild.Prelude.Dict.{Dict}
use osbuild.Json.{Json, arr, obj, str, Items, nil, cons, end, truthy}
use osbuild.Json.Reads.{item, get, items_of, elements, or_default}
use osbuild.Meta.Schemas.{Step, key, position, ValidationResult, Validator, merge}
use osbuild.Meta.Schemas.Cached.{Disk, Key, Schemata, check_with}

-- A name that is no text cannot be joined to a path, or be a key of a `dict`.
abbrev pub text_of : Json → Result String
text_of (str s) = ok s
text_of j = err type_error

-- `mod.get("type")`, and a name only where it is neither missing nor empty.
unfoldable pub module_name : Option Json → Result (Option String)
module_name none = ok none
module_name (some (str s)) = ok (if s == "" then none else some s)
module_name (some j) = if truthy j then err type_error else ok none

-- `{i["name"]: i for i in items}`
unfoldable pub named_items : Items → Dict Json → Result (Dict Json)
named_items nil d = ok d
named_items (cons i rest) d = do
  value ← item "name" i
  name ← text_of value
  named_items rest (Dict.put name i d)

unfoldable pub module_items : Json → Result (Dict Json)
unfolding named_items
module_items (arr xs) = named_items xs []
module_items j = items_of j

module _ {S : Type 0} (check : String → String → List Step → Json → S → Result S) where
  abbrev pub check_named : String → List Step → Json → Option String → S → Result S
  check_named klass path mod_ none s = ok s
  check_named klass path mod_ (some name) s = check klass name path mod_ s

  unfoldable pub validate_module : String → List Step → Json → S → Result S
  unfolding module_name
  validate_module klass path mod_ s = do
    found ← get "type" mod_
    name ← module_name found
    check_named klass path mod_ name s

  unfoldable pub validate_modules : String → String → List Step → Dict Json → S → Result S
  unfolding validate_module
  validate_modules klass group path [] s = ok s
  validate_modules klass group path ((name, mod_) ∷ rest) s =
      validate_module klass (path ++ key group ∷ key name ∷ []) mod_ s >>= λ s'.
      validate_modules klass group path rest s'

  unfoldable pub validate_stage_modules : String → String → Json → List Step → S → Result S
  unfolding module_items validate_modules
  validate_stage_modules klass group stage path s = do
    found ← get group stage
    items ← module_items (or_default (obj end) found)
    validate_modules klass group path items s

  unfoldable pub validate_stage : Json → List Step → S → Result S
  unfolding validate_stage_modules
  validate_stage stage path s = do
    value ← item "type" stage
    name ← text_of value
    s₁ ← check "Stage" name path stage s
    s₂ ← validate_stage_modules "Device" "devices" stage path s₁
    s₃ ← validate_stage_modules "Input" "inputs" stage path s₂
    validate_stage_modules "Mount" "mounts" stage path s₃

  unfoldable pub validate_stages : List Step → ℕ → Items → S → Result S
  unfolding validate_stage
  validate_stages path i nil s = ok s
  validate_stages path i (cons stage rest) s =
      validate_stage stage (path ++ key "stages" ∷ position i ∷ []) s >>= λ s'.
      validate_stages path (suc i) rest s'

  unfoldable pub validate_pipeline : Json → List Step → S → Result S
  unfolding validate_stages
  validate_pipeline pipeline path s = do
    found ← get "stages" pipeline
    stages ← elements (or_default (arr nil) found)
    validate_stages path 0 stages s

  unfoldable pub validate_pipelines : ℕ → Items → S → Result S
  unfolding validate_pipeline
  validate_pipelines i nil s = ok s
  validate_pipelines i (cons pipeline rest) s =
      validate_pipeline pipeline (key "pipelines" ∷ position i ∷ []) s >>= λ s'.
      validate_pipelines (suc i) rest s'

  unfoldable pub validate_sources : Dict Json → S → Result S
  validate_sources [] s = ok s
  validate_sources ((name, source) ∷ rest) s =
      check "Source" name (key "sources" ∷ key name ∷ []) source s >>= λ s'.
      validate_sources rest s'

  unfoldable pub walk : Json → S → Result S
  unfolding validate_pipelines validate_sources
  walk manifest s = do
    found ← get "sources" manifest
    sources ← items_of (or_default (obj end) found)
    s' ← validate_sources sources s
    found' ← get "pipelines" manifest
    pipelines ← elements (or_default (arr nil) found')
    validate_pipelines 0 pipelines s'

abbrev pub module_key : String → String → Key
module_key klass name = record { klass = klass; name = some name; version = "2" }

abbrev pub manifest_key : Key
manifest_key = record { klass = "Manifest"; name = none; version = "2" }

module _ (show : ℕ → String) (v : Validator) (disk : Disk) where
  -- `get_schema`, `validate` and `result.merge`
  unfoldable pub check_module :
      String
      → String
      → List Step
      → Json
      → ValidationResult × Schemata
      → Result (ValidationResult × Schemata)
  check_module klass name path target (result, cache) = do
    res ← check_with disk show v (module_key klass name) target cache
    ok (merge show path res.0 result, res.1)

  unfoldable pub validate : Json → Schemata → Result (ValidationResult × Schemata)
  unfolding check_module walk
  validate manifest cache =
      check_with disk show v manifest_key manifest cache >>= walk check_module manifest

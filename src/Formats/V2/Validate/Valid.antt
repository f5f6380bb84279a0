-- ===== src/Formats/V2/Validate/Valid.antt =====
-- osbuild/formats/v2.py: what a result of `validate` without errors says of the manifest.
use osbuild.Prelude.{
  ℕ, String, Bool, true, false, ◌&&◌, Option, List, [], ◌∷◌, Result, ok, err, ◌≡◌,
}
use osbuild.Json.{Json}
use osbuild.Meta.Schemas.{ValidationResult, Validator, valid}
use osbuild.Meta.Schemas.Accepts.{accepts}
use osbuild.Meta.Schemas.Cached.{Disk, Key, Schemata, schema_on_disk, IsCached}
use osbuild.Formats.V2.Validate.{module_key}
use osbuild.Formats.V2.Validate.Modules.{Module}

module _ (show : ℕ → String) (v : Validator) (disk : Disk) where
  abbrev accepted : Json → Result (Option Json) → Bool
  accepted target (err e) = false
  accepted target (ok read) = accepts v target read

  -- The schema on disk accepts the target.
  unfoldable pub is_accepted : Key → Json → Bool
  is_accepted k target = accepted target (schema_on_disk disk k)

  unfoldable pub all_accepted : List Module → Bool
  unfolding is_accepted
  all_accepted [] = true
  all_accepted ((klass, name, j) ∷ rest) =
      is_accepted (module_key klass name) j && all_accepted rest

  -- So far the result has no errors exactly where the first check and all modules met were accepted.
  abbrev Agrees : Bool → ValidationResult × Schemata → List Module → Type 0
  Agrees first s found = (valid s.0 ≡ (first && all_accepted found)) × IsCached disk v s.1

-- ===== src/Formats/V2/Validate/Total.antt =====
-- osbuild/formats/v2.py: `validate` of a manifest that has the shape which its walk needs.
use osbuild.Prelude.{ℕ, String, true, Option, ok, ◌≡◌}
use osbuild.Json.{Json}
use osbuild.Meta.Schemas.{Validator}
use osbuild.Meta.Schemas.Cached.{Disk, schema_on_disk, is_module}
use osbuild.Formats.V2.Validate.{module_key}

module _ (show : ℕ → String) (v : Validator) (disk : Disk) where
  -- Every module can be looked up on disk.
  abbrev pub IsReadable : Type 0
  IsReadable =
      (klass name : String)
      → is_module klass ≡ true
      → (read : Option Json) × (schema_on_disk disk (module_key klass name) ≡ ok read)

-- ===== src/Tests/Indexes.antt =====
-- Runs of osbuild/meta.py and of `validate` of osbuild/formats/v2.py: the runner for a version that
-- there is none of, and a manifest with a mount whose module is not on disk.
use Prim.Native.Char.{Char, char}
use osbuild.Prelude.{
  ℕ, String, ◌==◌, Bool, true, false, List, [], ◌∷◌, ◌++◌, Option, none, some, if◌then◌else◌,
  Result, ok, err, ◌≡◌, refl, inl, Has,
}
use osbuild.Json.{Json, bool, str, arr, obj, nil, cons, end, field}
use osbuild.Meta.Runners.{RunnerInfo, Index, text, decimal, parse_name, detect_runner}
use osbuild.Meta.Runners.Names.{parse_name-split}
use osbuild.Meta.Runners.Best.{IsBest, IsIndex, all_runners, detect_runner-IsBest}
use osbuild.Meta.Schemas.{Validator, ValidationResult}
use osbuild.Meta.Schemas.Cached.{Disk, Schemata}
use osbuild.Formats.V2.Validate.{validate}

abbrev fedor : List Char
fedor = char 102 tt ∷ char 101 tt ∷ char 100 tt ∷ char 111 tt ∷ char 114 tt ∷ []

parse_name-split_example :
    parse_name (text (fedor ++ char 97 tt ∷ char 51 tt ∷ char 56 tt ∷ []))
    ≡ (text (fedor ++ char 97 tt ∷ []), decimal 0 (char 51 tt ∷ char 56 tt ∷ []))
parse_name-split_example =
    parse_name-split fedor (char 97 tt) (char 51 tt ∷ char 56 tt ∷ []) refl (refl, (refl, tt))

abbrev runners : Index
runners = record {
  path = "/usr/lib/osbuild";
  files = "org.osbuild.fedora38" ∷ "org.osbuild.rhel9" ∷ "org.osbuild.fedora30" ∷ [];
  runners = [];
  host_runner = none;
}

fedora_named : ((parse_name "org.osbuild.fedora35").0 == "") ≡ false
unfolding parse_name
fedora_named = refl

detect_runner-IsBest_example :
    IsBest
      (parse_name "org.osbuild.fedora35").1
      (λ (r : RunnerInfo).
        Has r (all_runners runners) × (r.distro ≡ (parse_name "org.osbuild.fedora35").0))
      (detect_runner "org.osbuild.fedora35" runners).0
    × IsIndex (detect_runner "org.osbuild.fedora35" runners).1
detect_runner-IsBest_example =
    detect_runner-IsBest "org.osbuild.fedora35" runners (inl refl) fedora_named

abbrev number_text : ℕ → String
number_text n = "0"

abbrev no_mount : String → Option Json
no_mount klass = if klass == "Mount" then none else some (bool true)

abbrev disk : Disk
disk = record {
  manifest_schema = λ version. some (bool true);
  module_schema = λ klass name version. ok (no_mount klass);
}

abbrev lenient : Validator
lenient = record { check_schema = λ schema. none; iter_errors = λ schema target. [] }

abbrev stage : Json
stage = obj (
    field "type" (str "org.osbuild.copy") (
      field "mounts"
        (arr
          (cons (obj (field "name" (str "root") (field "type" (str "org.osbuild.ext4") end))) nil))
        end))

abbrev image : Json
image = obj (
    field "sources" (obj (field "org.osbuild.curl" (obj end) end))
      (field "pipelines" (arr (cons (obj (field "stages" (arr (cons stage nil)) end)) nil)) end))

abbrev ended : Result (ValidationResult × Schemata) → ValidationResult × Schemata
ended (ok res) = res
ended (err e) = (record { origin = none; errors = [] }, [])

abbrev checked : ValidationResult × Schemata
checked = ended (validate number_text lenient disk image [])

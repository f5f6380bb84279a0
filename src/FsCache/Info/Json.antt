-- ===== src/FsCache/Info/Json.antt =====
-- osbuild/util/fscache.py: the JSON form of FsCacheInfo.
use Prim.Native.String.{count}
use osbuild.Prelude.{String, true, Option, none, some, ◌≡◌, refl, same_number}
use osbuild.Prelude.Dict
use osbuild.Prelude.Int.{ℤ}
use osbuild.FsCache.Info.{
  InfoValue, MaximumSize, unset, named, bytes, FsCacheInfo, from_json, to_json, parse_boot_id,
  parse_size, parse_version, boot_id_json, size_json, version_json,
}

-- What `from_json` lets through: a boot id has 32 characters, and the one name of a size is
-- "unlimited".
abbrev IsBootId : Option String → Type 0
IsBootId none = Unit
IsBootId (some s) = same_number (count s) 32 ≡ true

abbrev IsSize : MaximumSize → Type 0
IsSize unset = Unit
IsSize (named s) = s ≡ "unlimited"
IsSize (bytes i) = Unit

abbrev pub IsValid : FsCacheInfo → Type 0
IsValid info = IsBootId info.creation_boot_id × IsSize info.maximum_size

parse_size-named : (s : String) → s ≡ "unlimited" → parse_size (some (InfoValue.text s)) ≡ named s
unfolding parse_size
parse_size-named s e = rw (e, parse_size) refl

parse_boot_id-text :
    (s : String)
    → same_number (count s) 32 ≡ true
    → parse_boot_id (some (InfoValue.text s)) ≡ some s
unfolding parse_boot_id
parse_boot_id-text s e = rw e

parts :
    (boot : Option String) (size : MaximumSize) (version : Option ℤ)
    → IsBootId boot
    → IsSize size
    → from_json (
        some (to_json (record { creation_boot_id = boot; maximum_size = size; version = version })))
      ≡ record { creation_boot_id = boot; maximum_size = size; version = version }
unfolding from_json to_json Dict.get Dict.put parse_version boot_id_json size_json version_json
parts none unset none b n = refl
parts none unset (some v) b n = refl
parts none (bytes i) none b n = refl
parts none (bytes i) (some v) b n = refl
parts none (named s) none b n = rw (parse_size-named s n) refl
parts none (named s) (some v) b n = rw (parse_size-named s n) refl
parts (some t) unset none b n = rw (parse_boot_id-text t b) refl
parts (some t) unset (some v) b n = rw (parse_boot_id-text t b) refl
parts (some t) (bytes i) none b n = rw (parse_boot_id-text t b) refl
parts (some t) (bytes i) (some v) b n = rw (parse_boot_id-text t b) refl
parts (some t) (named s) none b n = rw (parse_boot_id-text t b, parse_size-named s n) refl
parts (some t) (named s) (some v) b n = rw (parse_boot_id-text t b, parse_size-named s n) refl

-- Reading back what `to_json` writes gives the same information, if its boot id has 32 characters
-- and its size, where it is a name, is "unlimited".
pub from_json-to_json : (info : FsCacheInfo) → IsValid info → from_json (some (to_json info)) ≡ info
from_json-to_json info w = parts info.creation_boot_id info.maximum_size info.version w.0 w.1

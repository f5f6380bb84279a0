-- ===== src/FsCache/Info.antt =====
-- osbuild/util/fscache.py, class FsCacheInfo: the static information of a cache and its JSON form.
pub mod Json
use Prim.Native.String.{count}
use osbuild.Prelude.{String, ◌==◌, Option, none, some, [], ◌∷◌, if◌then◌else◌, same_number}
use osbuild.Prelude.Dict
use osbuild.Prelude.Dict.{Dict}
use osbuild.Prelude.Int.{ℤ}

-- A field of the JSON object in `cache.info`. JSON's `true` and `false` are integers in Python and
-- stand here as such.
pub data InfoValue : Type 0 where
  int : ℤ → InfoValue
  text : String → InfoValue
  other : InfoValue

-- `MaximumSizeType`; `None` is `unset`.
pub data MaximumSize : Type 0 where
  unset : MaximumSize
  named : String → MaximumSize
  bytes : ℤ → MaximumSize

pub record FsCacheInfo : Type 0 where
  pub creation_boot_id : Option String
  pub maximum_size : MaximumSize
  pub version : Option ℤ

abbrev pub empty_info : FsCacheInfo
empty_info = record { creation_boot_id = none; maximum_size = unset; version = none }

parse_boot_id : Option InfoValue → Option String
parse_boot_id (some (text s)) = if same_number (count s) 32 then some s else none
parse_boot_id _ = none

parse_size : Option InfoValue → MaximumSize
parse_size (some (int i)) = bytes i
parse_size (some (text s)) = if s == "unlimited" then named "unlimited" else unset
parse_size _ = unset

parse_version : Option InfoValue → Option ℤ
parse_version (some (int i)) = some i
parse_version _ = none

-- `none` is a JSON value that is no object.
unfoldable pub from_json : Option (Dict InfoValue) → FsCacheInfo
unfolding parse_boot_id parse_size parse_version
from_json none = empty_info
from_json (some data_) = record {
  creation_boot_id = parse_boot_id (Dict.get "creation-boot-id" data_);
  maximum_size = parse_size (Dict.get "maximum-size" data_);
  version = parse_version (Dict.get "version" data_);
}

boot_id_json : Option String → Dict InfoValue → Dict InfoValue
boot_id_json none d = d
boot_id_json (some s) d = Dict.put "creation-boot-id" (text s) d

size_json : MaximumSize → Dict InfoValue → Dict InfoValue
size_json unset d = d
size_json (named s) d = Dict.put "maximum-size" (text s) d
size_json (bytes i) d = Dict.put "maximum-size" (int i) d

version_json : Option ℤ → Dict InfoValue → Dict InfoValue
version_json none d = d
version_json (some i) d = Dict.put "version" (int i) d

unfoldable pub to_json : FsCacheInfo → Dict InfoValue
unfolding boot_id_json size_json version_json
to_json info =
    version_json info.version (size_json info.maximum_size (boot_id_json info.creation_boot_id []))

-- `d.update(new)`
unfoldable pub update : Dict InfoValue → Dict InfoValue → Dict InfoValue
update d [] = d
update d ((k, v) ∷ new) = update (Dict.put k v d) new

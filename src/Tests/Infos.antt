-- ===== src/Tests/Infos.antt =====
-- Runs on the information of a cache, of osbuild/util/fscache.py.
use osbuild.Prelude.{String, [], ◌∷◌, none, some, Result, ok, err, ◌≡◌, refl}
use osbuild.Prelude.Dict
use osbuild.Prelude.Dict.{Dict}
use osbuild.Prelude.Int.{pos}
use osbuild.FsCache.{FsCache, set_info, update_cache_size}
use osbuild.FsCache.Info.{
  InfoValue, int, text, MaximumSize, named, bytes, FsCacheInfo, from_json, to_json,
}
use osbuild.FsCache.Info.Json.{from_json-to_json}
use osbuild.FsCache.InfoFile.{set_info-get}

abbrev full_info : FsCacheInfo
full_info = record {
  creation_boot_id = some "0123456789abcdef0123456789abcdef";
  maximum_size = named "unlimited";
  version = some (pos 1);
}

from_json-to_json_example : from_json (some (to_json full_info)) ≡ full_info
from_json-to_json_example = from_json-to_json full_info (refl, refl)

abbrev file : Dict InfoValue
file = ("version", int (pos 1)) ∷ ("future", text "kept") ∷ []

-- The limit is below the recorded size.
abbrev cache : FsCache String
cache = record {
  objects = [];
  size = 1000;
  info_file = some file;
  info = record { creation_boot_id = none; maximum_size = bytes (pos 500); version = some (pos 1) };
  maximum_size = pos 500;
  bootid = "b";
}

abbrev larger : FsCacheInfo
larger = record { creation_boot_id = none; maximum_size = bytes (pos 2000); version = none }

abbrev or_cache : Result (FsCache String) → FsCache String
or_cache (ok s) = s
or_cache (err e) = cache

abbrev changed : FsCache String
changed = or_cache (set_info larger cache)

set_run : set_info larger cache ≡ ok changed
unfolding set_info from_json Dict.get osbuild.FsCache.Info.update to_json Dict.put
set_run = refl

abbrev new_file : Dict InfoValue
new_file =
    ("version", int (pos 1)) ∷ ("future", text "kept") ∷ ("maximum-size", int (pos 2000)) ∷ []

new_file_run : changed.info_file ≡ some new_file
unfolding set_info from_json Dict.get osbuild.FsCache.Info.update to_json Dict.put
new_file_run = refl

set_info-get_example : Dict.get "future" new_file ≡ Dict.get "future" file
unfolding to_json Dict.has Dict.put
set_info-get_example =
    set_info-get larger cache changed file new_file "future" refl set_run new_file_run refl

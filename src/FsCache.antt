-- ===== src/FsCache.antt =====
-- osbuild/util/fscache.py, class FsCache: the object store on disk as the one process sees it that
-- works with it. The directory `objects/` is a dictionary from names to entries, `cache.size` is a
-- number, and each lock is a field of its entry. A method that is a context manager is two
-- functions, what it does before and after the caller's block.
pub mod Info
pub mod Lru
pub mod Store
mod Rules
pub mod Bounds
pub mod Evict
mod Sorting
pub mod Oldest
pub mod InfoFile
pub mod Lookup
pub mod Load
use osbuild.Prelude.{
  ℕ, zero, suc, ◌+◌, ◌*◌, ◌≤◌, String, ◌==◌, Bool, true, false, not, ◌&&◌, ◌||◌, Option, none, some,
  List, [], ◌∷◌, if◌then◌else◌, leb, ltb, Result, ok, err, value_error, miss_error, truthy_text,
}
use osbuild.Prelude.Dict
use osbuild.Prelude.Dict.{Dict}
use osbuild.FsCache.Info.{
  InfoValue, MaximumSize, unset, named, bytes, FsCacheInfo, from_json, to_json, update,
}
use osbuild.Prelude.Int.{ℤ, pos, negsuc, neg, add_ℤ, is_negative, leb_ℤ}

-- `object.info`
pub record ObjectInfo : Type 0 where
  pub creation_boot_id : String
  pub size : ℕ

-- The state of the lock file `object.lock`.
pub data Lock : Type 0 where
  free : Lock
  reading : ℕ → Lock
  writing : Lock

-- A directory below `objects/`: its `data/`, its `object.info` if it was committed, its lock, and
-- the access time of the lock file.
pub record Entry (C : Type 0) : Type 0 where
  pub content : C
  pub info : Option ObjectInfo
  pub lock : Lock
  pub atime : ℕ

pub record FsCache (C : Type 0) : Type 0 where
  pub objects : Dict (Entry C)
  pub size : ℕ
  pub info_file : Option (Dict InfoValue)
  pub info : FsCacheInfo
  pub maximum_size : ℤ
  pub bootid : String

abbrev pub version_current : ℤ
version_current = pos 1

abbrev pub version_minimum : ℤ
version_minimum = pos 1

-- What `_load_cache_info` keeps of `maximum-size`; -1 stands for no limit.
unfoldable pub parse_maximum_size : MaximumSize → Result ℤ
parse_maximum_size unset = ok (pos 0)
parse_maximum_size (named s) = if s == "unlimited" then ok (neg 1) else err value_error
parse_maximum_size (bytes i) = ok i

-- The new size, unless it is past the limit.
abbrev new_size : ℤ → ℤ → Option ℕ
new_size maximum_size (negsuc n) = some 0
new_size maximum_size (pos n) =
    if is_negative maximum_size || leb_ℤ (pos n) maximum_size then some n else none

-- What taking a read lock without waiting does to the lock.
abbrev lock_read : Lock → Option Lock
lock_read free = some (reading 1)
lock_read (reading n) = some (reading (suc n))
lock_read writing = none

abbrev unlock_read : Lock → Lock
unlock_read free = free
unlock_read (reading zero) = free
unlock_read (reading (suc zero)) = free
unlock_read (reading (suc (suc n))) = reading (suc n)
unlock_read writing = writing

-- `_atomic_open` without waiting and for writing gets the lock.
abbrev pub is_free : Lock → Bool
is_free free = true
is_free _ = false

module _ {C : Type 0} where
  abbrev limit : FsCache C → FsCacheInfo → Result ℤ → Result (FsCache C)
  limit s info (ok i) = ok (record s { info = info; maximum_size = i })
  limit s info (err e) = err e

  unfoldable pub load_cache_info : FsCacheInfo → FsCache C → Result (FsCache C)
  unfolding parse_maximum_size
  load_cache_info info s = limit s info (parse_maximum_size info.maximum_size)

  -- The call with no argument reads the file `cache.info`, whose JSON may be no object.
  unfoldable pub reload_cache_info : FsCache C → Result (FsCache C)
  unfolding load_cache_info
  reload_cache_info s = load_cache_info (from_json s.info_file) s

  unfoldable pub is_compatible : FsCache C → Bool
  is_compatible s = elim s.info.version [
    | none ↦ false
    | some v ↦ leb_ℤ version_minimum v && leb_ℤ v version_current
  ]

  abbrev resized : FsCache C → Option ℕ → FsCache C × Bool
  resized s none = (s, false)
  resized s (some n) = (record s { size = n }, true)

  unfoldable pub update_cache_size : ℤ → FsCache C → FsCache C × Bool
  update_cache_size diff s = resized s (new_size s.maximum_size (add_ℤ s.size diff))

  set_info_file : FsCacheInfo → Option (Dict InfoValue) → FsCache C → Result (FsCache C)
  unfolding load_cache_info is_compatible
  set_info_file info none s = load_cache_info info s
  set_info_file info (some info_raw) s =
      let merged = update info_raw (to_json info) in
      load_cache_info (from_json (some merged))
        (if is_compatible s then record s { info_file = some merged } else s)

  -- The setter of `info`.
  unfoldable pub set_info : FsCacheInfo → FsCache C → Result (FsCache C)
  unfolding set_info_file
  set_info info s = set_info_file info s.info_file s

  -- `_rm_r_object`: the directory with everything in it is gone.
  unfoldable pub rm_r_object : String → FsCache C → FsCache C
  rm_r_object name s = record s { objects = Dict.remove name s.objects }

  opened : String → ℕ → FsCache C → Entry C → Option Lock → Result (FsCache C × C)
  opened name now s e none = err miss_error
  opened name now s e (some l) = ok (
    record s { objects = Dict.put name (record e { lock = l; atime = now }) s.objects },
    e.content,
  )

  pub open_entry : String → ℕ → FsCache C → Option (Entry C) → Result (FsCache C × C)
  unfolding opened
  open_entry name now s none = err miss_error
  open_entry name now s (some e) = opened name now s e (lock_read e.lock)

  -- `load`, up to its `yield`: the lock is taken and the access time set. A name that is not there
  -- or is locked by a writer is a miss.
  unfoldable pub load : String → ℕ → FsCache C → Result (FsCache C × C)
  unfolding open_entry
  load name now s =
      if not (truthy_text name)
      then err value_error
      else if not (is_compatible s)
      then err miss_error
      else open_entry name now s (Dict.get name s.objects)

  release_entry : String → FsCache C → Option (Entry C) → FsCache C
  release_entry name s none = s
  release_entry name s (some e) = record s {
    objects = Dict.put name (record e { lock = unlock_read e.lock }) s.objects;
  }

  -- `load` after its `yield`: the lock is dropped.
  unfoldable pub unload : String → FsCache C → FsCache C
  unfolding release_entry
  unload name s = release_entry name s (Dict.get name s.objects)

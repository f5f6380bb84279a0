-- ===== src/ObjectStore.antt =====
-- osbuild/objectstore.py: objects and the store. The content of an object is what stands below its
-- `data/` directory, its tree and its metadata. A call that raises gives back no state: a raise ends
-- the build. `uuids` hands out the anonymous names of the cache and `clock` the time; both move on
-- with every use.
use osbuild.Prelude.{
  ℕ, suc, String, Bool, true, false, not, Option, none, some, List, [], ◌∷◌, if◌then◌else◌, ◌&&◌,
  ◌>>◌, opt_eq, truthy_name, Error, Result, ok, err, value_error, runtime_error, miss_error, ◌>>=◌,
}
use osbuild.FsCache.{FsCache, load, unload}
use osbuild.FsCache.Lru.{Space}
use osbuild.FsCache.Store.{store}

pub data Mode : Type 0 where
  read write : Mode

pub record Object (C : Type 0) : Type 0 where
  pub id : Option String
  pub mode : Mode
  pub content : C
  pub source_epoch : Option ℕ

pub record ObjectStore (C : Type 0) : Type 0 where
  pub cache : FsCache C
  pub objs : List (Object C)
  pub read_only : Bool
  pub clock : ℕ
  pub uuids : ℕ → String

-- What the store does to contents by tools of the system: the content of a new object, the times of
-- the files of a tree clamped to an epoch, and the disk usage.
pub record Contents (C : Type 0) : Type 0 where
  pub fresh : C
  pub clamp : ℕ → C → C
  pub space : Space C

abbrev is_read : Mode → Bool
is_read read = true
is_read write = false

module _ {C : Type 0} where
  unfoldable pub get_floating : Option String → List (Object C) → Option (Object C)
  get_floating object_id [] = none
  get_floating object_id (obj ∷ rest) =
      if is_read obj.mode && opt_eq obj.id object_id then some obj else get_floating object_id rest

  loaded :
      ObjectStore C → String → Result (FsCache C × C) → Result (Option (Object C) × ObjectStore C)
  loaded s object_id (err miss_error) = ok (none, s)
  loaded s object_id (err e) = err e
  loaded s object_id (ok (cache, content)) = ok (
    some (record { id = some object_id; mode = read; content = content; source_epoch = none }),
    record s { cache = cache; clock = suc s.clock },
  )

  get_cached : Option String → ObjectStore C → Result (Option (Object C) × ObjectStore C)
  unfolding loaded
  get_cached none s = err value_error
  get_cached (some object_id) s = loaded s object_id (load object_id s.clock s.cache)

  -- The object stays open, with its read lock, until the store is closed.
  unfoldable pub get : Option String → ObjectStore C → Result (Option (Object C) × ObjectStore C)
  unfolding get_cached
  get object_id s = elim (get_floating object_id s.objs) [
    | some obj ↦ ok (some obj, s)
    | none ↦ get_cached object_id s
  ]

  checked : ObjectStore C → String → Result (FsCache C × C) → Result (Bool × ObjectStore C)
  checked s object_id (err miss_error) = ok (false, s)
  checked s object_id (err e) = err e
  checked s object_id (ok (cache, content)) =
      ok (true, record s { cache = unload object_id cache; clock = suc s.clock })

  contains_cached : Option String → ObjectStore C → Result (Bool × ObjectStore C)
  unfolding checked
  contains_cached none s = ok (false, s)
  contains_cached (some object_id) s = checked s object_id (load object_id s.clock s.cache)

  unfoldable pub contains : Option String → ObjectStore C → Result (Bool × ObjectStore C)
  unfolding contains_cached
  contains object_id s =
      if not (truthy_name object_id) then ok (false, s) else elim (get_floating object_id s.objs) [
        | some obj ↦ ok (true, s)
        | none ↦ contains_cached object_id s
      ]

  -- `_ensure_writable`
  unfoldable pub ensure_writable : ObjectStore C → Result (Unit {0})
  ensure_writable s = if s.read_only then err runtime_error else ok tt

  unfoldable pub check_mode : Mode → Object C → Result (Unit {0})
  check_mode read obj = if is_read obj.mode then ok tt else err value_error
  check_mode write obj = if is_read obj.mode then err value_error else ok tt

  -- `init`: `cp -a` over a new object, whose own entries the copy replaces.
  unfoldable pub init : Object C → Object C → Result (Object C)
  unfolding check_mode
  init base obj = check_mode write obj >>= λ _. ok (record obj { content = base.content })

  unfoldable pub export_floating : List (Object C) → List (Object C)
  export_floating [] = []
  export_floating (obj ∷ rest) =
      let more = export_floating rest in if is_read obj.mode then obj ∷ more else more

  -- `Object.from_dict` keeps the mode, the id and the path of each object.
  unfoldable pub load_floating : List (Object C) → ObjectStore C → Result (ObjectStore C)
  load_floating objs s =
      if not s.read_only then err runtime_error else ok (record s { objs = objs })

module _ {C : Type 0} (k : Contents C) where
  unfoldable pub new : Option String → ObjectStore C → Result (Object C)
  unfolding ensure_writable
  new object_id s = ensure_writable s >>= λ _.
      ok (record { id = object_id; mode = write; content = k.fresh; source_epoch = none })

  unfoldable pub clamp_mtime : Object C → Object C
  clamp_mtime obj = elim obj.source_epoch [
    | none ↦ obj
    | some epoch ↦ record obj { content = k.clamp epoch obj.content }
  ]

  unfoldable pub finalize : Object C → Object C
  unfolding clamp_mtime
  finalize obj = if is_read obj.mode then obj else record (clamp_mtime obj) { mode = read }

  stored : ObjectStore C → FsCache C × Option Error → Result (ObjectStore C)
  stored s (cache, some e) = err e
  stored s (cache, none) = ok (record s { cache = cache; clock = suc s.clock })

  -- `commit`: the object, clamped, and the store that the cache may have taken it into.
  unfoldable pub commit : Object C → String → ObjectStore C → Result (Object C × ObjectStore C)
  unfolding clamp_mtime stored ensure_writable
  commit obj object_id s = do
    ensure_writable s
    let clamped = clamp_mtime obj
    s' ← stored s (store k.space object_id (s.uuids s.clock) s.clock clamped.content s.cache)
    ok (clamped, s')

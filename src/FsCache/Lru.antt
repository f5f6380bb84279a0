-- ===== src/FsCache/Lru.antt =====
-- osbuild/util/fscache.py: `_last_used`, `_last_used_objs` and `_remove_lru`.
use osbuild.Prelude.{
  ℕ, ◌+◌, ◌*◌, String, ◌&&◌, Option, none, some, List, [], ◌∷◌, if◌then◌else◌, leb, Result, ok, err,
  miss_error, os_error, same_number,
}
use osbuild.Prelude.Dict
use osbuild.Prelude.Dict.{Dict}
use osbuild.Prelude.Int.{neg}
use osbuild.FsCache.{Entry, FsCache, is_free, update_cache_size, rm_r_object}

-- The two disk usages that `_calculate_space` reports, of the `data/` of an entry and of its whole
-- directory. They are `st_blocks` of the file system.
pub record Space (C : Type 0) : Type 0 where
  pub of_data : C → ℕ
  pub of_entry : Entry C → ℕ

-- `FsCacheObjectInfo`
pub record ObjectUse : Type 0 where
  pub name : String
  pub last_used : ℕ

-- `sorted(objs, key=lambda obj: obj.last_used)`, which is stable.
unfoldable pub insert_use : ObjectUse → List ObjectUse → List ObjectUse
insert_use u [] = u ∷ []
insert_use u (v ∷ vs) = if leb u.last_used v.last_used then u ∷ v ∷ vs else v ∷ insert_use u vs

unfoldable pub sort_uses : List ObjectUse → List ObjectUse
unfolding insert_use
sort_uses [] = []
sort_uses (u ∷ us) = insert_use u (sort_uses us)

-- What a round of the loop does with an object of the list, as its entry is now.
pub data Round (C : Type 0) : Type 0 where
  gone busy : Round C
  removed : Entry C → Round C

module _ {C : Type 0} where
  unfoldable pub last_used : String → FsCache C → Result ℕ
  last_used name s = elim (Dict.get name s.objects) [ none ↦ err miss_error | some e ↦ ok e.atime ]

  unfoldable pub uses : Dict (Entry C) → List ObjectUse
  uses [] = []
  uses ((name, e) ∷ d) = record { name = name; last_used = e.atime } ∷ uses d

  unfoldable pub last_used_objs : FsCache C → List ObjectUse
  unfolding uses sort_uses
  last_used_objs s = sort_uses (uses s.objects)

  -- An entry goes, and the recorded size falls by what its directory takes on disk.
  unfoldable pub evict : Space C → String → Entry C → FsCache C → FsCache C
  unfolding update_cache_size rm_r_object
  evict sp name e s = (update_cache_size (neg (sp.of_entry e)) (rm_r_object name s)).0

  unfoldable pub round : ObjectUse → Option (Entry C) → Round C
  round u none = gone
  round u (some e) = if is_free e.lock && same_number u.last_used e.atime then removed e else busy

  -- The loop of `_remove_lru`. A lock that is taken, or an access since the list was made, lets the
  -- object be; an object that is gone raises.
  unfoldable pub remove_uses : Space C → ℕ → ℕ → List ObjectUse → FsCache C → FsCache C × Result ℕ
  remove_uses sp try_to_free freed [] s = (s, ok freed)
  remove_uses sp try_to_free freed (u ∷ us) s = elim (round u (Dict.get u.name s.objects)) [
    | gone ↦ (s, err os_error)
    | busy ↦ remove_uses sp try_to_free freed us s
    | removed e ↦
        if leb try_to_free (freed + sp.of_entry e)
        then (evict sp u.name e s, ok (freed + sp.of_entry e))
        else remove_uses sp try_to_free (freed + sp.of_entry e) us (evict sp u.name e s)
  ]

  unfoldable pub remove_lru : Space C → ℕ → FsCache C → FsCache C × Result ℕ
  unfolding remove_uses last_used_objs
  remove_lru sp required_size s = remove_uses sp (required_size * 2) 0 (last_used_objs s) s

-- ===== src/FsCache/Store.antt =====
-- osbuild/util/fscache.py: `store`.
use osbuild.Prelude.{
  ℕ, String, Bool, true, false, not, ◌||◌, Option, none, some, if◌then◌else◌, Result, ok, err,
  Error, value_error, truthy_text,
}
use osbuild.Prelude.Dict
use osbuild.Prelude.Int.{pos, neg, is_negative, leb_ℤ}
use osbuild.FsCache.{free, writing, Entry, FsCache, is_compatible, update_cache_size, rm_r_object}
use osbuild.FsCache.Lru.{Space, remove_lru}

module _ {C : Type 0} (sp : Space C) where
  -- `_atomic_dir` and the new `data/`, once the caller's block has filled it: an entry with no
  -- `object.info`, locked by this process.
  unfoldable pub anonymous : ℕ → C → Entry C
  anonymous now content = record { content = content; info = none; lock = writing; atime = now }

  -- `fits` is the early exit for what never is going to fit.
  unfoldable pub fits : ℕ → FsCache C → Bool
  fits size s = is_negative s.maximum_size || leb_ℤ (pos size) s.maximum_size

  -- Makes room for `size`: the first `_update_cache_size`, or `_remove_lru` and a second one.
  abbrev pub retry : ℕ → FsCache C × Result ℕ → FsCache C × Result Bool
  retry size (s, err e) = (s, err e)
  retry size (s, ok freed) = let (s', done) = update_cache_size (pos size) s in (s', ok done)

  abbrev pub or_retry : ℕ → FsCache C × Bool → FsCache C × Result Bool
  or_retry size (s, true) = (s, ok true)
  or_retry size (s, false) = retry size (remove_lru sp size s)

  unfoldable pub make_room : ℕ → FsCache C → FsCache C × Result Bool
  make_room size s = or_retry size (update_cache_size (pos size) s)

  -- The commit: `object.info` is written and the directory renamed. If the name is taken, the rename
  -- fails, which is ignored; the directory is still there, so its `object.info` goes and the size
  -- falls again, but `uuidname` was cleared, so the directory stays, with its lock dropped.
  unfoldable pub commit : String → String → ℕ → ℕ → C → FsCache C → FsCache C × Option Error
  unfolding anonymous
  commit name uuidname now size content s =
      let entry : Entry C = record (anonymous now content) {
        info = some (record { creation_boot_id = s.bootid; size = size });
        lock = free;
      } in
      if Dict.has name s.objects
      then (
        record (update_cache_size (neg size) s).0 {
          objects = Dict.put uuidname (record entry { info = none }) s.objects;
        },
        none,
      )
      else (record s { objects = Dict.put name entry (Dict.remove uuidname s.objects) }, none)

  abbrev pub finish :
      String → String → ℕ → ℕ → C → FsCache C × Result Bool → FsCache C × Option Error
  finish name uuidname now size content (s, err e) = (rm_r_object uuidname s, some e)
  finish name uuidname now size content (s, ok false) = (rm_r_object uuidname s, none)
  finish name uuidname now size content (s, ok true) = commit name uuidname now size content s

  -- `store` with the caller's block: the block leaves `content` in the new directory. An
  -- incompatible cache gives the caller a staging directory that is thrown away. The second part is
  -- what is raised.
  unfoldable pub store : String → String → ℕ → C → FsCache C → FsCache C × Option Error
  store name uuidname now content s =
      let size = sp.of_data content in
      let entered : FsCache C = record s {
        objects = Dict.put uuidname (anonymous now content) s.objects;
      } in
      if not (truthy_text name)
      then (s, some value_error)
      else if not (is_compatible s)
      then (s, none)
      else if not (fits size s)
      then (rm_r_object uuidname entered, none)
      else finish name uuidname now size content (make_room size entered)

-- ===== src/Tests/Caches.antt =====
-- Runs of osbuild/util/fscache.py: a cache of 1000 bytes with two entries of 500, of which one may be
-- held by a reader, and what a `store` and an eviction make of it.
use osbuild.Prelude.{ℕ, ◌≤◌, [], ◌∷◌, none, some, true, ok, ◌≡◌, refl}
use osbuild.Prelude.Dict
use osbuild.Prelude.Int.{pos}
use osbuild.FsCache.{
  Lock, free, reading, Entry, FsCache, ObjectInfo, update_cache_size, is_compatible, load,
}
use osbuild.FsCache.Info.{bytes}
use osbuild.FsCache.Lru.{Space, remove_lru}
use osbuild.FsCache.Store.{store}
use osbuild.FsCache.Bounds.{IsWithin, store-IsWithin}
use osbuild.FsCache.Evict.{store-keeps_locked}
use osbuild.FsCache.Oldest.{remove_lru-oldest}
use osbuild.FsCache.Lookup.{or_new, entry_for, store-get}
use osbuild.FsCache.Load.{IsLoaded, load-unload}

-- The content is its size.
abbrev space : Space ℕ
space = record { of_data = λ c. c; of_entry = λ e. e.content }

abbrev entry : ℕ → Lock → ℕ → Entry ℕ
entry size lock atime = record {
  content = size;
  info = some (record { creation_boot_id = "b"; size = size });
  lock = lock;
  atime = atime;
}

abbrev cache : Lock → FsCache ℕ
cache lock = record {
  objects = ("old", entry 500 lock 1) ∷ ("young", entry 500 free 7) ∷ [];
  size = 1000;
  info_file = none;
  info = record {
    creation_boot_id = none;
    maximum_size = bytes (pos 1000);
    version = some (pos 1);
  };
  maximum_size = pos 1000;
  bootid = "b";
}

store-IsWithin_example : IsWithin (store space "new" "uuid-1" 9 300 (cache free)).0
store-IsWithin_example = store-IsWithin space "new" "uuid-1" 9 300 (cache free) refl

store-keeps_locked_example :
    Dict.get "old" (store space "new" "uuid-1" 9 300 (cache (reading 1))).0.objects
    ≡ some (entry 500 (reading 1) 1)
unfolding Dict.get
store-keeps_locked_example =
    store-keeps_locked space "new" "uuid-1" 9 300 (cache (reading 1)) "old"
      (entry 500 (reading 1) 1) refl (λ e. cc) refl

remove_lru-oldest_example : 1 ≤ 7
unfolding Dict.get remove_lru osbuild.FsCache.Lru.round osbuild.FsCache.Lru.evict Dict.remove
remove_lru-oldest_example =
    remove_lru-oldest space 200 (cache free) "young" "old" (entry 500 free 7) (entry 500 free 1)
      refl refl refl refl refl

abbrev roomy : FsCache ℕ
roomy = record (cache free) { maximum_size = pos 2000 }

roomy_room : (update_cache_size (pos 300) roomy).1 ≡ true
unfolding update_cache_size
roomy_room = refl

roomy_compatible : is_compatible roomy ≡ true
unfolding is_compatible
roomy_compatible = refl

store-get_example :
    Dict.get "new" (store space "new" "uuid-1" 9 300 roomy).0.objects
    ≡ or_new (Dict.get "new" roomy.objects) true (entry_for space 9 300 roomy)
store-get_example =
    store-get space "new" "uuid-1" 9 300 roomy "new" refl roomy_compatible roomy_room (λ e. cc)
      (λ e. cc)

load-unload_example :
    (t : FsCache ℕ) × (load "old" 9 (cache (reading 1)) ≡ ok (t, 500))
    × IsLoaded "old" 9 (entry 500 (reading 1) 1) (cache (reading 1)) t
unfolding is_compatible Dict.get
load-unload_example =
    load-unload "old" 9 (cache (reading 1)) (entry 500 (reading 1) 1) refl refl refl
      ((λ e. cc), (λ e. cc))

-- ===== src/FsCache/Load.antt =====
-- osbuild/util/fscache.py: `load` up to its `yield`, and what is left behind it.
use osbuild.Prelude.{
  ℕ, zero, suc, String, ◌==◌, true, false, some, ok, if◌then◌else◌, truthy_text, ◌≡◌, ◌≢◌, refl,
  sym, arith,
}
use osbuild.Prelude.Dict
use osbuild.Prelude.Dict.{get-put, get-put_self}
use osbuild.FsCache.{
  Lock, free, reading, writing, Entry, FsCache, is_free, is_compatible, unlock_read, open_entry,
  opened, release_entry, load, unload,
}

-- The lock can be had to read; one that is held so has a reader.
abbrev pub IsShared : Lock → Type 0
IsShared l = (l ≢ writing) × (l ≢ reading zero)

module _ {C : Type 0} where
  -- The cache gives the content, and the entry is locked until the lock is dropped; then the cache has
  -- the entries that it had, this one with a new access time.
  abbrev pub IsLoaded : String → ℕ → Entry C → FsCache C → FsCache C → Type 0
  IsLoaded name now e s t =
      ((e' : Entry C) × (Dict.get name t.objects ≡ some e') × (is_free e'.lock ≡ false))
      × ((j : String)
          → Dict.get j (unload name t).objects
            ≡ (if name == j then some (record e { atime = now }) else Dict.get j s.objects))

  locked : String → ℕ → Entry C → Lock → FsCache C → FsCache C
  locked name now e l s = record s {
    objects = Dict.put name (record e { lock = l; atime = now }) s.objects;
  }

  locked-IsLoaded :
      (name : String) (now : ℕ) (e : Entry C) (l : Lock) (s : FsCache C)
      → is_free l ≡ false
      → unlock_read l ≡ e.lock
      → IsLoaded name now e s (locked name now e l s)
  unfolding locked unload release_entry
  locked-IsLoaded name now e l s held undone =
      let e' : Entry C = record e { lock = l; atime = now } in
      let d = Dict.put name e' s.objects in
      (
        (e', get-put_self name e' s.objects, held),
        λ j. rw (get-put_self, get-put, undone) (ground (arith, get-put name j e' s.objects)),
      )

  -- Loading an entry that no writer holds, in a compatible cache, gives its content. Until the lock is
  -- dropped the entry is there and locked, so that no eviction takes it; then the cache has the entries
  -- that it had, this one with the time of the call as its access time. `load` looks at no
  -- `object.info`.
  pub load-unload :
      (name : String) (now : ℕ) (s : FsCache C) (e : Entry C)
      → truthy_text name ≡ true
      → is_compatible s ≡ true
      → Dict.get name s.objects ≡ some e
      → IsShared e.lock
      → (t : FsCache C) × (load name now s ≡ ok (t, e.content)) × IsLoaded name now e s t
  unfolding load open_entry opened locked
  load-unload name now s e named compatible found shared =
      rw (named, compatible, found) (opens e.lock refl shared)
    where
      opens :
          (l : Lock)
          → e.lock ≡ l
          → IsShared l
          → (t : FsCache C) × (open_entry name now s (some e) ≡ ok (t, e.content))
            × IsLoaded name now e s t
      opens free is (open_, counted) =
          (_, rw is refl, locked-IsLoaded name now e (reading 1) s refl (sym is))
      opens (reading zero) is (open_, counted) = absurd (counted refl)
      opens (reading (suc n)) is (open_, counted) =
          (_, rw is refl, locked-IsLoaded name now e (reading (suc (suc n))) s refl (sym is))
      opens writing is (open_, counted) = absurd (open_ refl)

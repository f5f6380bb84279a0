-- ===== src/FsCache/Lookup.antt =====
-- osbuild/util/fscache.py: the entries of the cache after a `store`.
use osbuild.Prelude.{
  ℕ, ◌+◌, String, ◌==◌, eq_iff, Bool, true, false, ◌||◌, Option, none, some, if◌then◌else◌,
  truthy_text, ◌≡◌, ◌≢◌, refl, sym, ap, ◌∙◌, Bool-cases, Option-cases, inl, inr, arith,
}
use osbuild.Prelude.Dict
use osbuild.Prelude.Dict.{
  Dict, get-put, get-put_ne, get-remove_ne, has-put, get_of_has, none_of_has,
}
use osbuild.Prelude.Int.{ℤ, pos, negsuc, neg, is_negative, leb_ℤ}
use osbuild.FsCache.{
  free, Entry, FsCache, new_size, resized, update_cache_size, rm_r_object, is_compatible,
}
use osbuild.FsCache.Lru.{Space, evict}
use osbuild.FsCache.Store.{store, anonymous, commit, fits, make_room}

module _ {C : Type 0} where
  pub objects-update_cache_size :
      (i : ℤ) (s : FsCache C) → (update_cache_size i s).0.objects ≡ s.objects
  unfolding update_cache_size
  objects-update_cache_size i s = ground arith

  -- A new entry is added, and one that is there stays.
  abbrev pub or_new : Option (Entry C) → Bool → Entry C → Option (Entry C)
  or_new (some old) asked entry = some old
  or_new none asked entry = if asked then some entry else none

-- What can be added to the recorded size is not past the limit by itself.
new_size-fits :
    (max : ℤ) (n size m : ℕ)
    → new_size max (pos (n + size)) ≡ some m
    → (is_negative max || leb_ℤ (pos size) max) ≡ true
new_size-fits (pos k) n size m e = ground arith
new_size-fits (negsuc k) n size m e = refl

module _ {C : Type 0} where
  resized-size : (s : FsCache C) (o : Option ℕ) → (resized s o).1 ≡ true → (n : ℕ) × (o ≡ some n)
  resized-size s none e = cc
  resized-size s (some n) e = (n, refl)

  or_new-has :
      (name j : String) (entry : Entry C) (d : Dict (Entry C))
      → Dict.has name d ≡ true
      → Dict.get j d ≡ or_new (Dict.get j d) (name == j) entry
  or_new-has name j entry d there = elim (Option-cases (Dict.get j d)) [
    | inr (old, found) ↦ rw found refl
    | inl missing ↦ elim (Bool-cases (name == j)) [
      | inr differ ↦ rw (missing, differ) refl
      | inl same ↦
          let (old, found) = get_of_has name d there in
          let equal : name ≡ j = ground (arith, eq_iff name j) in
          let never : some old ≡ none = sym found ∙ ap (λ k. Dict.get k d) equal ∙ missing in cc
    ]
  ]

  or_new-missing :
      (name j : String) (entry : Entry C) (d : Dict (Entry C))
      → Dict.has name d ≡ false
      → (if name == j then some entry else Dict.get j d) ≡ or_new (Dict.get j d) (name == j) entry
  or_new-missing name j entry d open_ = elim (Bool-cases (name == j)) [
    | inl same ↦
        let equal : name ≡ j = ground (arith, eq_iff name j) in
        let missing : Dict.get j d ≡ none =
          ap (λ k. Dict.get k d) (sym equal) ∙ none_of_has name d open_ in
        rw (same, missing) refl
    | inr differ ↦ elim (Option-cases (Dict.get j d)) [
      | inl missing ↦ rw (differ, missing) refl
      | inr (old, found) ↦ rw (differ, found) refl
    ]
  ]

module _ {C : Type 0} (sp : Space C) where
  pub objects-evict :
      (name : String) (e : Entry C) (s : FsCache C)
      → (evict sp name e s).objects ≡ Dict.remove name s.objects
  unfolding evict rm_r_object
  objects-evict name e s = objects-update_cache_size (neg (sp.of_entry e)) (rm_r_object name s)

  -- The entry that a `store` makes.
  abbrev pub entry_for : ℕ → C → FsCache C → Entry C
  entry_for now c s = record {
    content = c;
    info = some (record { creation_boot_id = s.bootid; size = sp.of_data c });
    lock = free;
    atime = now;
  }

  module _ (name uuidname : String) (now : ℕ) (c : C) (other : name ≢ uuidname) where
    entered : FsCache C → FsCache C
    entered s = record s { objects = Dict.put uuidname (anonymous sp now c) s.objects }

    commit-get :
        (n : ℕ) (s : FsCache C) (j : String)
        → j ≢ uuidname
        → Dict.get j
            (commit sp name uuidname now
              (sp.of_data c)
              c
              (record (entered s) { size = n })).0.objects
          ≡ or_new (Dict.get j s.objects) (name == j) (entry_for now c s)
    unfolding commit anonymous entered
    commit-get n s j apart =
        let new = anonymous sp now c in
        let d = Dict.put uuidname new s.objects in
        let kept : Dict.get j d ≡ Dict.get j s.objects =
          get-put_ne uuidname j new s.objects apart in
        let known : Dict.has name d ≡ Dict.has name s.objects =
          ground (arith, has-put uuidname name new s.objects, eq_iff uuidname name) in
        elim (Bool-cases (Dict.has name s.objects)) [
          | inl taken ↦
              let taken' : Dict.has name d ≡ true = known ∙ taken in
              rw taken' (
                get-put_ne uuidname j _ d apart
                ∙ kept
                ∙ or_new-has name j (entry_for now c s) s.objects taken)
          | inr open_ ↦
              let open' : Dict.has name d ≡ false = known ∙ open_ in
              rw open' (
                get-put name j _ (Dict.remove uuidname d)
                ∙ rw (get-remove_ne uuidname j d apart, kept)
                    (or_new-missing name j (entry_for now c s) s.objects open_))
        ]

  -- A `store` in a compatible cache that can take the size of the content on its recorded size, with no
  -- eviction, adds an entry with the content under the name, free, with the boot of the cache and the
  -- size, if there is none; if there is one, and under every other name, the entry stays as it is.
  -- (The anonymous name is left out; it is not that of the entry.)
  pub store-get :
      (name uuidname : String) (now : ℕ) (c : C) (s : FsCache C) (j : String)
      → truthy_text name ≡ true
      → is_compatible s ≡ true
      → (update_cache_size (pos (sp.of_data c)) s).1 ≡ true
      → name ≢ uuidname
      → j ≢ uuidname
      → Dict.get j (store sp name uuidname now c s).0.objects
        ≡ or_new (Dict.get j s.objects) (name == j) (entry_for now c s)
  unfolding store fits make_room update_cache_size entered
  store-get name uuidname now c s j named compatible room other apart =
      let size = sp.of_data c in
      let (n, sized) = resized-size s (new_size s.maximum_size (pos (s.size + size))) room in
      let fit : (is_negative s.maximum_size || leb_ℤ (pos size) s.maximum_size) ≡ true =
        new_size-fits s.maximum_size s.size size n sized in
      rw (named, compatible, fit, sized) (commit-get name uuidname now c other n s j apart)

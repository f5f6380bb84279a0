-- ===== src/FsCache/Bounds.antt =====
-- osbuild/util/fscache.py: the recorded size of the cache and its limit.
use osbuild.Prelude.{
  ℕ, String, true, ◌||◌, Option, none, some, ◌≡◌, refl, subst, Bool-cases, inl, inr, arith,
}
use osbuild.Prelude.Dict
use osbuild.Prelude.Int.{ℤ, pos, negsuc, neg, add_ℤ, is_negative, leb_ℤ}
use osbuild.FsCache.{Entry, FsCache, update_cache_size, rm_r_object, new_size, resized}
use osbuild.FsCache.Lru.{Space, evict}
use osbuild.FsCache.Store.{store, commit}
use osbuild.FsCache.Rules.{store_ind}

-- The recorded size is within the limit, or there is none.
abbrev pub InLimit : ℤ → ℕ → Type 0
InLimit maximum_size n = (is_negative maximum_size || leb_ℤ (pos n) maximum_size) ≡ true

module _ {C : Type 0} where
  abbrev pub IsWithin : FsCache C → Type 0
  IsWithin s = InLimit s.maximum_size s.size

InLimit-zero : (max : ℤ) → InLimit max 0
InLimit-zero (pos n) = ground arith
InLimit-zero (negsuc n) = refl

new_size-InLimit : (max i : ℤ) {n : ℕ} → new_size max i ≡ some n → InLimit max n
new_size-InLimit max (negsuc k) {n} e =
    let zero_is : 0 ≡ n = cc in subst (InLimit max) zero_is (InLimit-zero max)
new_size-InLimit max (pos k) {n} e = elim (Bool-cases (is_negative max || leb_ℤ (pos k) max)) [
  | inl fits ↦
      let same : some k ≡ some n = (rw fits at e) in
      let same_size : k ≡ n = cc in subst (InLimit max) same_size fits
  | inr past ↦ let never : ◌≡◌ {A = Option ℕ} none (some n) = (rw past at e) in cc
]

module _ {C : Type 0} where
  resized-IsWithin :
      (s : FsCache C) (o : Option ℕ)
      → ((n : ℕ) → o ≡ some n → InLimit s.maximum_size n)
      → IsWithin s
      → IsWithin (resized s o).0
  resized-IsWithin s none f w = w
  resized-IsWithin s (some n) f w = f n refl

  pub update_cache_size-IsWithin :
      (diff : ℤ) (s : FsCache C) → IsWithin s → IsWithin (update_cache_size diff s).0
  unfolding update_cache_size
  update_cache_size-IsWithin diff s =
      resized-IsWithin s (new_size s.maximum_size (add_ℤ s.size diff))
        (λ n. new_size-InLimit s.maximum_size (add_ℤ s.size diff))

module _ {C : Type 0} (sp : Space C) where
  evict-IsWithin :
      (name : String) (e : Entry C) (s : FsCache C) → IsWithin s → IsWithin (evict sp name e s)
  unfolding evict rm_r_object
  evict-IsWithin name e s w =
      update_cache_size-IsWithin (neg (sp.of_entry e)) (rm_r_object name s) w

  commit-IsWithin :
      (name uuidname : String) (now size : ℕ) (content : C) (s : FsCache C)
      → IsWithin s
      → IsWithin (commit sp name uuidname now size content s).0
  unfolding commit
  commit-IsWithin name uuidname now size content s w = elim (Bool-cases (Dict.has name s.objects)) [
    | inl taken ↦ rw taken (update_cache_size-IsWithin (neg size) s w)
    | inr free_name ↦ rw free_name w
  ]

  -- Whatever becomes of a `store`, with or without evictions, the recorded size of the cache ends
  -- within the limit if it was within the limit before.
  pub store-IsWithin :
      (name uuidname : String) (now : ℕ) (content : C) (s : FsCache C)
      → IsWithin s
      → IsWithin (store sp name uuidname now content s).0
  unfolding rm_r_object
  store-IsWithin name uuidname now content =
      store_ind sp IsWithin name uuidname now content (record {
        enter = λ s w. w;
        leave = λ s w. w;
        grow = λ n s w. update_cache_size-IsWithin (pos n) s w;
        evicts = λ u e s found open_ w. evict-IsWithin u.name e s w;
        commits = λ s w. commit-IsWithin name uuidname now (sp.of_data content) content s w;
      })

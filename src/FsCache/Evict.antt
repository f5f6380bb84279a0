-- ===== src/FsCache/Evict.antt =====
-- osbuild/util/fscache.py: which entries the eviction of `_remove_lru` takes.
use osbuild.Prelude.{
  ℕ, String, ◌==◌, true, false, none, some, if◌then◌else◌, ◌≡◌, ◌≢◌, ◌∙◌, subst, Bool-cases, inl,
  inr,
}
use osbuild.Prelude.Dict
use osbuild.Prelude.Dict.{get-remove, get-put_ne, get-remove_ne, none_of_has, Dict}
use osbuild.FsCache.{Entry, FsCache, is_free, rm_r_object}
use osbuild.FsCache.Lru.{Space, evict}
use osbuild.FsCache.Store.{store, anonymous, commit}
use osbuild.FsCache.Rules.{store_ind}
use osbuild.FsCache.Lookup.{objects-evict, objects-update_cache_size}

module _ {C : Type 0} where
  abbrev Keeps : String → Entry C → FsCache C → Type 0
  Keeps j e s = Dict.get j s.objects ≡ some e

module _ {C : Type 0} (sp : Space C) where
  pub get-evict :
      (name j : String) (e : Entry C) (s : FsCache C)
      → Dict.get j (evict sp name e s).objects ≡ (if name == j then none else Dict.get j s.objects)
  get-evict name j e s = rw objects-evict (get-remove name j s.objects)

  not-evicted :
      (j name : String) (d e : Entry C) (s : FsCache C)
      → is_free e.lock ≡ false
      → Dict.get name s.objects ≡ some d
      → is_free d.lock ≡ true
      → Keeps j e s
      → j ≢ name
  not-evicted j name d e s held found open_ k same =
      let here : some d ≡ some e = (cc) in
      let same_entry : d ≡ e = cc in
      let never : is_free e.lock ≡ true =
        subst (λ (x : Entry C). is_free x.lock ≡ true) same_entry open_ in
      cc

  evict-Keeps :
      (j name : String) (d e : Entry C) (s : FsCache C)
      → j ≢ name
      → Keeps j e s
      → Keeps j e (evict sp name d s)
  evict-Keeps j name d e s ne k = rw objects-evict (rw (get-remove_ne name j s.objects ne) k)

  taken_of_Keeps :
      (j name : String) (e : Entry C) (s : FsCache C)
      → Keeps j e s
      → Dict.has name s.objects ≡ false
      → j ≢ name
  taken_of_Keeps j name e s k open_ same =
      let missing : Dict.get name s.objects ≡ none = none_of_has name s.objects open_ in cc

  commit-Keeps :
      (name uuidname : String) (now size : ℕ) (c : C) (j : String) (e : Entry C) (s : FsCache C)
      → j ≢ uuidname
      → Keeps j e s
      → Keeps j e (commit sp name uuidname now size c s).0
  unfolding commit
  commit-Keeps name uuidname now size c j e s other k =
      elim (Bool-cases (Dict.has name s.objects)) [
        | inl taken ↦ rw taken (get-put_ne uuidname j _ s.objects other ∙ k)
        | inr open_ ↦ rw open_ (
            get-put_ne name j _ (Dict.remove uuidname s.objects) (taken_of_Keeps j name e s k open_)
            ∙ get-remove_ne uuidname j s.objects other
            ∙ k)
      ]

  -- An entry that is locked, as one that this process reads, is there unchanged after a `store` of
  -- any name, however much has to be evicted. (The anonymous name is new, so it is another one.)
  pub store-keeps_locked :
      (name uuidname : String) (now : ℕ) (c : C) (s : FsCache C) (j : String) (e : Entry C)
      → is_free e.lock ≡ false
      → j ≢ uuidname
      → Dict.get j s.objects ≡ some e
      → Dict.get j (store sp name uuidname now c s).0.objects ≡ some e
  unfolding rm_r_object
  store-keeps_locked name uuidname now c s j e held other =
      store_ind sp (Keeps j e) name uuidname now c
        (record {
          enter = λ t k. get-put_ne uuidname j (anonymous sp now c) t.objects other ∙ k;
          leave = λ t k. get-remove_ne uuidname j t.objects other ∙ k;
          grow = λ n t k. rw objects-update_cache_size k;
          evicts = λ u d t found open_ k.
              evict-Keeps j u.name d e t (not-evicted j u.name d e t held found open_ k) k;
          commits = λ t k. commit-Keeps name uuidname now (sp.of_data c) c j e t other k;
        })
        s

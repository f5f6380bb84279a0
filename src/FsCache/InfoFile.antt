-- ===== src/FsCache/InfoFile.antt =====
-- osbuild/util/fscache.py: what the setter of `info` leaves of the file `cache.info`.
use osbuild.Prelude.{
  String, ◌==◌, false, Option, some, [], ◌∷◌, ok, ◌≡◌, refl, subst, ◌∙◌, arith, Bool-cases, inl,
  inr,
}
use osbuild.Prelude.Dict
use osbuild.Prelude.Dict.{Dict, get-put}
use osbuild.FsCache.{FsCache, load_cache_info, set_info, set_info_file, is_compatible}
use osbuild.FsCache.Info.{InfoValue, FsCacheInfo, from_json, to_json, update}

get-update :
    (k : String) (d new : Dict InfoValue)
    → Dict.has k new ≡ false
    → Dict.get k (update d new) ≡ Dict.get k d
unfolding update Dict.has
get-update k d [] h = refl
get-update k d ((j, v) ∷ new) h = elim (Bool-cases (j == k)) [
  | inl same ↦ let never = (rw same at h) in cc
  | inr other ↦ get-update k (Dict.put j v d) new (rw other at h) ∙ get-put j k v d ∙ rw other refl
]

module _ {C : Type 0} where
  load_cache_info-file :
      (info : FsCacheInfo) (s t : FsCache C)
      → load_cache_info info s ≡ ok t
      → t.info_file ≡ s.info_file
  unfolding load_cache_info
  load_cache_info-file info s t e = ground arith

  set_info_file-get :
      (info : FsCacheInfo) (s t : FsCache C) (raw raw' : Dict InfoValue) (k : String)
      → s.info_file ≡ some raw
      → set_info_file info (some raw) s ≡ ok t
      → t.info_file ≡ some raw'
      → Dict.has k (to_json info) ≡ false
      → Dict.get k raw' ≡ Dict.get k raw
  unfolding set_info_file
  set_info_file-get info s t raw raw' k before e after unset_key =
      let merged = update raw (to_json info) in
      let parsed = from_json (some merged) in
      elim (Bool-cases (is_compatible s)) [
        | inl current ↦
            let written : FsCache C = record s { info_file = some merged } in
            let kept = load_cache_info-file parsed written t (rw (current, set_info_file) at e) in
            let same : merged ≡ raw' = cc in rw (← same) (get-update k raw (to_json info) unset_key)
        | inr foreign ↦
            let kept = load_cache_info-file parsed s t (rw (foreign, set_info_file) at e) in
            let same : raw ≡ raw' = cc in rw same refl
      ]

  -- A field of `cache.info` that the new information does not set is in the file afterwards as it was
  -- before, whether osbuild knows it or not.
  pub set_info-get :
      (info : FsCacheInfo) (s t : FsCache C) (raw raw' : Dict InfoValue) (k : String)
      → s.info_file ≡ some raw
      → set_info info s ≡ ok t
      → t.info_file ≡ some raw'
      → Dict.has k (to_json info) ≡ false
      → Dict.get k raw' ≡ Dict.get k raw
  unfolding set_info
  set_info-get info s t raw raw' k before e =
      set_info_file-get info s t raw raw' k before
        (subst (λ (file : Option (Dict InfoValue)). set_info_file info file s ≡ ok t) before e)

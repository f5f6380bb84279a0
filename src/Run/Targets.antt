-- ===== src/Run/Targets.antt =====
-- osbuild/pipeline.py: what `Manifest.build` reports for its targets.
use osbuild.Prelude.{
  String, true, false, Option, some, List, [], ◌∷◌, ◌++◌, map, opt_eq, opt_eq_sound, Result, ok,
  >>=-eq-ok, ◌≡◌, refl, sym, ap, subst, ◌∙◌, inl, inr, ◌⊎◌, arith, Bool-cases, Has, All, All-imp,
}
use osbuild.Json.{Json}
use osbuild.Digest.{Digest}
use osbuild.Objects.{Pipeline, Source, Manifest}
use osbuild.Pipeline.{pipeline_id}
use osbuild.Manifest.{get_item}
use osbuild.ObjectStore.{ObjectStore, Contents}
use osbuild.Build.{Exec, PipelineResult, run}
use osbuild.Run.{
  DownloadResult, Results, put_result, ManifestBuildResult, add_pipeline_result, build_result_init,
  build_pipelines, unless_failed, download, build,
}

abbrev pub AllGood : Results → Type 0
AllGood = All (λ (e : Option String × PipelineResult). e.1.success ≡ true)

abbrev pub result_ids : Results → List (Option String)
result_ids = map (λ (e : Option String × PipelineResult). e.0)

pub put_result-AllGood :
    (id : Option String) (pr : PipelineResult) (rs : Results)
    → pr.success ≡ true
    → AllGood rs
    → AllGood (put_result id pr rs)
unfolding put_result
put_result-AllGood id pr [] good a = (good, tt)
put_result-AllGood id pr ((j, other) ∷ rs) good a = elim (Bool-cases (opt_eq j id)) [
  | inl same ↦ rw same (good, a.1)
  | inr apart ↦ rw apart (a.0, put_result-AllGood id pr rs good a.1)
]

put_result-Has_self :
    (id : Option String) (pr : PipelineResult) (rs : Results)
    → Has id (result_ids (put_result id pr rs))
unfolding put_result
put_result-Has_self id pr [] = inl refl
put_result-Has_self id pr ((j, other) ∷ rs) = elim (Bool-cases (opt_eq j id)) [
  | inl same ↦ rw same (inl (sym (opt_eq_sound j id same)))
  | inr apart ↦ rw apart (inr (put_result-Has_self id pr rs))
]

put_result-Has_old :
    (id i : Option String) (pr : PipelineResult) (rs : Results)
    → Has i (result_ids rs)
    → Has i (result_ids (put_result id pr rs))
unfolding put_result
put_result-Has_old id i pr [] w = absurd w
put_result-Has_old id i pr ((j, other) ∷ rs) (inl e) = elim (Bool-cases (opt_eq j id)) [
  | inl same ↦ rw same (inl e)
  | inr apart ↦ rw apart (inl e)
]
put_result-Has_old id i pr ((j, other) ∷ rs) (inr w) = elim (Bool-cases (opt_eq j id)) [
  | inl same ↦ rw same (inr w)
  | inr apart ↦ rw apart (inr (put_result-Has_old id i pr rs w))
]

-- Under a new id a result goes to the end.
pub put_result-new :
    (id : Option String) (pr : PipelineResult) (rs : Results)
    → ¬ Has id (result_ids rs)
    → put_result id pr rs ≡ rs ++ (id, pr) ∷ []
unfolding put_result
put_result-new id pr [] new = refl
put_result-new id pr ((j, other) ∷ rs) new = elim (Bool-cases (opt_eq j id)) [
  | inl same ↦ absurd (new (inl (sym (opt_eq_sound j id same))))
  | inr apart ↦ rw apart (ap (λ l. (j, other) ∷ l) (put_result-new id pr rs (λ w. new (inr w))))
]

pub add_pipeline_result-success :
    (id : Option String) (pr : PipelineResult) (mbr : ManifestBuildResult)
    → (add_pipeline_result id pr mbr).success ≡ true
    → pr.success ≡ true
unfolding add_pipeline_result
add_pipeline_result-success id pr mbr e = ground arith

module _ {C : Type 0} (h : Digest) (k : Contents C) (exec : Exec C) (m : Manifest) where
  -- The target names a pipeline, and the pipeline has a result.
  abbrev pub IsBuilt : Results → String → Type 0
  IsBuilt rs name =
      (pl : Pipeline) × (get_item h m (some name) ≡ ok pl) × Has (pipeline_id h pl) (result_ids rs)

  IsBuilt-put :
      (id : Option String) (pr : PipelineResult) (rs : Results) (name : String)
      → IsBuilt rs name
      → IsBuilt (put_result id pr rs) name
  IsBuilt-put id pr rs name (pl, found, w) =
      (pl, found, put_result-Has_old id (pipeline_id h pl) pr rs w)

  -- One round of the loop: the pipeline's result is added, and the loop goes on or ends with it.
  abbrev pub Next :
      List String
      → ManifestBuildResult
      → ObjectStore C
      → ManifestBuildResult
      → ObjectStore C
      → Type 0
  Next rest next s mbr' t =
      ((next.success ≡ true) × (build_pipelines h k exec m rest next s ≡ ok (mbr', t)))
      ⊎ ((next.success ≡ false) × (next ≡ mbr'))

  pub unless_failed-cases :
      (rest : Result (ManifestBuildResult × ObjectStore C)) (next mbr' : ManifestBuildResult)
      (s t : ObjectStore C)
      → unless_failed h k exec m rest next s ≡ ok (mbr', t)
      → ((next.success ≡ true) × (rest ≡ ok (mbr', t))) ⊎ ((next.success ≡ false) × (next ≡ mbr'))
  unless_failed-cases rest next mbr' s t e = elim (Bool-cases next.success) [
    | inl fine ↦ inl (fine, rw fine at e)
    | inr broken ↦ inr (broken, (let ended = (rw broken at e) in cc))
  ]

  pub step-cases :
      (name : String) (rest : List String) (mbr mbr' : ManifestBuildResult) (s t : ObjectStore C)
      → build_pipelines h k exec m (name ∷ rest) mbr s ≡ ok (mbr', t)
      → (pl : Pipeline) × (pr : PipelineResult) × (s₁ : ObjectStore C) × (get_item h m (some name)
          ≡ ok pl)
        × (run h k exec pl s ≡ ok (pr, s₁))
        × Next rest (add_pipeline_result (pipeline_id h pl) pr mbr) s₁ mbr' t
  unfolding build_pipelines
  step-cases name rest mbr mbr' s t e =
      let (pl, found, e₁) = >>=-eq-ok (get_item h m (some name)) _ e in
      let ((pr, s₁), ran, e₂) = >>=-eq-ok (run h k exec pl s) _ e₁ in
      (
        pl,
        pr,
        s₁,
        found,
        ran,
        unless_failed-cases
            (build_pipelines h k exec m rest (add_pipeline_result (pipeline_id h pl) pr mbr) s₁)
            (add_pipeline_result (pipeline_id h pl) pr mbr) mbr' s₁ t e₂,
      )

  build_pipelines-IsBuilt :
      (names done : List String) (mbr mbr' : ManifestBuildResult) (s t : ObjectStore C)
      → mbr.success ≡ true
      → AllGood mbr.pipeline_results
      → All (IsBuilt mbr.pipeline_results) done
      → build_pipelines h k exec m names mbr s ≡ ok (mbr', t)
      → mbr'.success ≡ true
      → AllGood mbr'.pipeline_results
        × All (IsBuilt mbr'.pipeline_results) names
        × All (IsBuilt mbr'.pipeline_results) done
  unfolding build_pipelines add_pipeline_result
  build_pipelines-IsBuilt [] done mbr mbr' s t up good built e up' =
      let same : mbr ≡ mbr' = cc in
      subst
        (λ (r : ManifestBuildResult).
          AllGood r.pipeline_results × Unit {0} × All (IsBuilt r.pipeline_results) done)
        same (good, tt, built)
  build_pipelines-IsBuilt (name ∷ rest) done mbr mbr' s t up good built e up' =
      let (pl, pr, s₁, found, ran, after) = step-cases name rest mbr mbr' s t e in
      let next = add_pipeline_result (pipeline_id h pl) pr mbr in
      elim after [
        | inl (fine, later) ↦
            let good_one = add_pipeline_result-success (pipeline_id h pl) pr mbr fine in
            let (all_good, rest_built, done_built) =
              build_pipelines-IsBuilt rest (name ∷ done) next mbr' s₁ t fine
                (put_result-AllGood (pipeline_id h pl) pr mbr.pipeline_results good_one good)
                (
                  (pl, found, put_result-Has_self (pipeline_id h pl) pr mbr.pipeline_results),
                  All-imp _ _ done (IsBuilt-put (pipeline_id h pl) pr mbr.pipeline_results) built,
                )
                later up' in
            (all_good, (done_built.0, rest_built), done_built.1)
        | inr (broken, same) ↦
            let never : false ≡ true =
              sym broken ∙ ap (λ (r : ManifestBuildResult). r.success) same ∙ up' in
            cc
      ]

  build_pipelines-download_result :
      (names : List String) (mbr mbr' : ManifestBuildResult) (s t : ObjectStore C)
      → build_pipelines h k exec m names mbr s ≡ ok (mbr', t)
      → mbr'.download_result ≡ mbr.download_result
  unfolding build_pipelines add_pipeline_result
  build_pipelines-download_result [] mbr mbr' s t e = ground arith
  build_pipelines-download_result (name ∷ rest) mbr mbr' s t e =
      let (pl, pr, s₁, found, ran, after) = step-cases name rest mbr mbr' s t e in
      elim after [
        | inl (fine, later) ↦
            build_pipelines-download_result rest (add_pipeline_result (pipeline_id h pl) pr mbr)
              mbr' s₁ t later
        | inr (broken, same) ↦ ap (λ (r : ManifestBuildResult). r.download_result) (sym same)
      ]

  started :
      (targets : List String) (s t : ObjectStore C) (mbr : ManifestBuildResult)
      (dr : DownloadResult)
      → unless_failed h k exec m
          (build_pipelines h k exec m targets (build_result_init dr) s)
          (build_result_init dr)
          s
        ≡ ok (mbr, t)
      → mbr.success ≡ true
      → (dr.success ≡ true)
        × (build_pipelines h k exec m targets (build_result_init dr) s ≡ ok (mbr, t))
  started targets s t mbr dr e up =
      elim (unless_failed-cases (build_pipelines h k exec m targets (build_result_init dr) s)
        (build_result_init dr) mbr s t e) [
          | inl (fine, ran) ↦ (fine, ran)
          | inr (broken, same) ↦
              let never : false ≡ true =
                sym broken ∙ ap (λ (r : ManifestBuildResult). r.success) same ∙ up in
              cc
        ]

  -- When `build` returns a success, the download was one, all results that it reports are, and every
  -- target names a pipeline of the manifest that has its result among them.
  pub build-success :
      (call : Source → Result Json) (targets : List String) (s t : ObjectStore C)
      (mbr : ManifestBuildResult)
      → build h k exec m call targets s ≡ ok (mbr, t)
      → mbr.success ≡ true
      → (dr : DownloadResult) × (download call m ≡ ok dr)
        × (dr.success ≡ true)
        × AllGood mbr.pipeline_results
        × All (IsBuilt mbr.pipeline_results) targets
  unfolding build
  build-success call targets s t mbr e up =
      let (dr, loaded, e₁) = >>=-eq-ok (download call m) _ e in
      let (fine, ran) = started targets s t mbr dr e₁ up in
      let (good, built, nothing) =
        build_pipelines-IsBuilt targets [] (build_result_init dr) mbr s t fine tt tt ran up in
      (dr, loaded, fine, good, built)

  -- The result of `build` carries what `download` gave.
  pub build-download_result :
      (call : Source → Result Json) (targets : List String) (s t : ObjectStore C)
      (mbr : ManifestBuildResult)
      → build h k exec m call targets s ≡ ok (mbr, t)
      → download call m ≡ ok mbr.download_result
  unfolding build
  build-download_result call targets s t mbr e =
      let (dr, loaded, e₁) = >>=-eq-ok (download call m) _ e in
      let kept : mbr.download_result ≡ dr =
        elim (unless_failed-cases (build_pipelines h k exec m targets (build_result_init dr) s)
          (build_result_init dr) mbr s t e₁) [
            | inl (fine, ran) ↦
                build_pipelines-download_result targets (build_result_init dr) mbr s t ran
            | inr (broken, same) ↦ ap (λ (r : ManifestBuildResult). r.download_result) (sym same)
          ] in
      subst (λ (d : DownloadResult). download call m ≡ ok d) (sym kept) loaded

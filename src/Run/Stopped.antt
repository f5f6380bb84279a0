-- ===== src/Run/Stopped.antt =====
-- osbuild/pipeline.py: what `Manifest.build` reports when a pipeline fails.
use osbuild.Prelude.{
  String, Bool, true, false, Option, none, some, List, [], ◌∷◌, ◌++◌, Result, ok, >>=-eq-ok, ◌≡◌,
  refl, sym, ap, subst, ◌∙◌, ◌⊎◌, inl, inr, Bool-cases, arith, Has, opt_eq,
}
use osbuild.Digest.{Digest}
use osbuild.Objects.{Stage, Pipeline, Source, Manifest}
use osbuild.Pipeline.{pipeline_id}
use osbuild.Manifest.{get, get_item}
use osbuild.ObjectStore
use osbuild.ObjectStore.{ObjectStore, Contents}
use osbuild.Build.{
  Exec, StageResult, PipelineResult, all_success, set_stages, build_missing, build_stages, run,
}
use osbuild.Build.Failure.{IsStopped, build_missing-failure}
use osbuild.Run.{
  DownloadResult, Results, put_result, ManifestBuildResult, add_pipeline_result, build_result_init,
  build_pipelines, unless_failed, download, build,
}
use osbuild.Json.{Json}
use osbuild.Run.Targets.{
  AllGood, result_ids, put_result-AllGood, put_result-new, add_pipeline_result-success, step-cases,
  unless_failed-cases,
}

module _ {C : Type 0} (h : Digest) (k : Contents C) (exec : Exec C) where
  missing-IsStopped :
      (pl : Pipeline) (s t : ObjectStore C) (there : Bool) (results : List StageResult)
      → (elim there [ true ↦ ok ([], s) | false ↦ build_missing h k exec pl s ]) ≡ ok (results, t)
      → all_success results ≡ false
      → IsStopped results
  unfolding all_success
  missing-IsStopped pl s t true results e bad =
      let same : [] ≡ results = cc in let never : true ≡ false = ap all_success same ∙ bad in cc
  missing-IsStopped pl s t false results e bad =
      (build_missing-failure h k exec pl s t results none e bad).0

  stages-IsStopped :
      (pl : Pipeline) (ss : List Stage) (s t : ObjectStore C) (results : List StageResult)
      → pl.stages ≡ ss
      → build_stages h k exec pl s ≡ ok (results, t)
      → all_success results ≡ false
      → IsStopped results
  unfolding build_stages all_success
  stages-IsStopped pl [] s t results stages e bad =
      let ended : ◌≡◌ {A = Result (List StageResult × ObjectStore C)} (ok ([], s))
          (ok (results, t)) =
        (rw (stages, build_stages) at e) in
      let same : [] ≡ results = cc in let never : true ≡ false = ap all_success same ∙ bad in cc
  stages-IsStopped pl (first ∷ rest) s t results stages e bad =
      let ((there, s₁), looked, e₁) =
        >>=-eq-ok (ObjectStore.contains (pipeline_id h pl) s) _ (rw (stages, build_stages) at e) in
      missing-IsStopped pl s₁ t there results e₁ bad

  stages_of :
      (pl : Pipeline) (s s₁ t : ObjectStore C) (results : List StageResult) (pr : PipelineResult)
      → build_stages h k exec pl s ≡ ok (results, s₁)
      → ◌≡◌ {A = Result (PipelineResult × ObjectStore C)}
          (ok (set_stages results (record { name = pl.name; success = true; stages = [] }), s₁))
          (ok (pr, t))
      → pr.success ≡ false
      → IsStopped pr.stages
  unfolding set_stages
  stages_of pl s s₁ t results pr built same bad =
      let stages : results ≡ pr.stages = cc in
      let success : all_success results ≡ pr.success = cc in
      subst IsStopped stages (stages-IsStopped pl pl.stages s s₁ results refl built (success ∙ bad))

  -- A run that is no success ends with the one stage that failed.
  pub run-IsStopped :
      (pl : Pipeline) (s t : ObjectStore C) (pr : PipelineResult)
      → run h k exec pl s ≡ ok (pr, t)
      → pr.success ≡ false
      → IsStopped pr.stages
  unfolding run set_stages
  run-IsStopped pl s t pr e bad =
      let ((results, s₁), built, same) = >>=-eq-ok (build_stages h k exec pl s) _ e in
      stages_of pl s s₁ t results pr built same bad

add_pipeline_result-failed :
    (id : Option String) (pr : PipelineResult) (mbr : ManifestBuildResult)
    → mbr.success ≡ true
    → (add_pipeline_result id pr mbr).success ≡ false
    → pr.success ≡ false
unfolding add_pipeline_result
add_pipeline_result-failed id pr mbr up e = ground arith

-- The results of a build that a pipeline ended: its result is the last one, all others are a
-- success, and its last stage is the one that failed.
abbrev pub EndsBadly : Results → Type 0
EndsBadly rs =
    (before : Results) × (id : Option String) × (last : PipelineResult) × (rs
      ≡ before ++ (id, last) ∷ [])
    × AllGood before
    × (last.success ≡ false)
    × IsStopped last.stages

split_cons :
    (i j : Option String) (rs : Results)
    → Has i (j ∷ result_ids rs)
    → (i ≡ j) ⊎ Has i (result_ids rs)
split_cons i j rs w = w

put_result-sub :
    (id : Option String) (pr : PipelineResult) (rs : Results) (seen : List (Option String))
    → ((i : Option String) → Has i (result_ids rs) → Has i seen)
    → (i : Option String) → Has i (result_ids (put_result id pr rs))
    → Has i (id ∷ seen)
unfolding put_result
put_result-sub id pr [] seen sub i (inl e) = inl e
put_result-sub id pr [] seen sub i (inr w) = absurd w
put_result-sub id pr ((j, other) ∷ rs) seen sub i w = elim (Bool-cases (opt_eq j id)) [
  | inl same ↦ inr (sub i (rw same at w))
  | inr apart ↦ elim (split_cons i j (put_result id pr rs) (rw apart at w)) [
    | inl e ↦ inr (sub i (inl e))
    | inr later ↦ put_result-sub id pr rs seen (λ k v. sub k (inr v)) i later
  ]
]

module _ (h : Digest) (m : Manifest) where
  abbrev id_of : Option Pipeline → Option String
  id_of none = none
  id_of (some pl) = pipeline_id h pl

  -- The id of the pipeline that a target names.
  abbrev pub target_id : String → Option String
  target_id name = id_of (get h m (some name))

  -- No two targets name pipelines with the same id.
  abbrev pub IsDistinct : List (Option String) → List String → Type 0
  IsDistinct seen [] = Unit
  IsDistinct seen (name ∷ names) =
      (¬ Has (target_id name) seen) × IsDistinct (target_id name ∷ seen) names

  get_item-target_id :
      (name : String) (pl : Pipeline)
      → get_item h m (some name) ≡ ok pl
      → target_id name ≡ pipeline_id h pl
  unfolding get_item
  get_item-target_id name pl e = ground arith

module _ {C : Type 0} (h : Digest) (k : Contents C) (exec : Exec C) (m : Manifest) where
  build_pipelines-stopped :
      (names : List String) (seen : List (Option String)) (mbr mbr' : ManifestBuildResult)
      (s t : ObjectStore C)
      → IsDistinct h m seen names
      → ((i : Option String) → Has i (result_ids mbr.pipeline_results) → Has i seen)
      → AllGood mbr.pipeline_results
      → mbr.success ≡ true
      → build_pipelines h k exec m names mbr s ≡ ok (mbr', t)
      → mbr'.success ≡ false
      → EndsBadly mbr'.pipeline_results
  unfolding build_pipelines
  build_pipelines-stopped [] seen mbr mbr' s t apart sub good up e down =
      let same : mbr ≡ mbr' = cc in
      let never : true ≡ false = sym up ∙ ap (λ (r : ManifestBuildResult). r.success) same ∙ down in
      cc
  build_pipelines-stopped (name ∷ rest) seen mbr mbr' s t apart sub good up e down =
      let (pl, pr, s₁, found, ran, after) = step-cases h k exec m name rest mbr mbr' s t e in
      let id = pipeline_id h pl in
      let next = add_pipeline_result id pr mbr in
      let named = get_item-target_id h m name pl found in
      elim after [
        | inl (fine, later) ↦
            build_pipelines-stopped rest (target_id h m name ∷ seen) next mbr' s₁ t apart.1
              (subst
                (λ j.
                  (i : Option String)
                  → Has i (result_ids (put_result id pr mbr.pipeline_results))
                  → Has i (j ∷ seen))
                (sym named) (put_result-sub id pr mbr.pipeline_results seen sub))
              (put_result-AllGood id pr mbr.pipeline_results
                (add_pipeline_result-success id pr mbr fine) good)
              fine later down
        | inr (broken, same) ↦
            let bad = add_pipeline_result-failed id pr mbr up broken in
            let new = λ (w : Has id (result_ids mbr.pipeline_results)).
              apart.0 (subst (λ i. Has i seen) (sym named) (sub id w)) in
            (
              mbr.pipeline_results,
              id,
              pr,
              ap (λ (r : ManifestBuildResult). r.pipeline_results) (sym same)
                  ∙ put_result-new id pr mbr.pipeline_results new,
              good,
              bad,
              run-IsStopped h k exec pl s s₁ pr ran bad,
            )
      ]

  downloaded :
      (targets : List String) (s t : ObjectStore C) (mbr : ManifestBuildResult)
      (dr : DownloadResult)
      → dr.success ≡ true
      → unless_failed h k exec m
          (build_pipelines h k exec m targets (build_result_init dr) s)
          (build_result_init dr)
          s
        ≡ ok (mbr, t)
      → build_pipelines h k exec m targets (build_result_init dr) s ≡ ok (mbr, t)
  downloaded targets s t mbr dr fine e =
      elim (unless_failed-cases h k exec m
        (build_pipelines h k exec m targets (build_result_init dr) s) (build_result_init dr) mbr s t
        e) [
          | inl (still, ran) ↦ ran
          | inr (broken, same) ↦ let never : true ≡ false = sym fine ∙ broken in cc
        ]

  -- When the download succeeds, the targets name pipelines with different ids, and `build` returns a
  -- failure, then the last of the reported results is the failed one, it ends with the one stage that
  -- failed, and all results before it are a success.
  pub build-stopped :
      (call : Source → Result Json) (targets : List String) (s t : ObjectStore C)
      (mbr : ManifestBuildResult) (dr : DownloadResult)
      → download call m ≡ ok dr
      → dr.success ≡ true
      → IsDistinct h m [] targets
      → build h k exec m call targets s ≡ ok (mbr, t)
      → mbr.success ≡ false
      → EndsBadly mbr.pipeline_results
  unfolding build
  build-stopped call targets s t mbr dr loaded fine apart e down =
      let ran = downloaded targets s t mbr dr fine (rw loaded at e) in
      build_pipelines-stopped targets [] (build_result_init dr) mbr s t apart (λ i w. w) tt fine ran
        down

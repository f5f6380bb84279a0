-- ===== src/Formats/V2/Output/Errors.antt =====
-- osbuild/formats/v2.py: what `output` says of a build that failed.
use osbuild.Prelude.{
  String, true, false, Option, some, List, [], ◌∷◌, ◌++◌, Result, ok, >>=-eq-ok, ◌≡◌, refl, sym,
  subst, inl, inr, Bool-cases, arith, Has, All, ◌==◌, eq_iff,
}
use osbuild.Prelude.Dict
use osbuild.Prelude.Dict.{Dict}
use osbuild.Json.{Json, bool, obj, Items, Fields, fields, arr, truthy}
use osbuild.Json.Reads.{item}
use osbuild.Digest.{Digest}
use osbuild.Objects.{Source, Manifest}
use osbuild.ObjectStore.{ObjectStore, Contents}
use osbuild.Build.{Exec, StageResult, PipelineResult}
use osbuild.Sources.{SourceItemResult, SourceResults}
use osbuild.Run.{
  DownloadResult, Results, ManifestBuildResult, add_results, source_download, download_all,
  download, build,
}
use osbuild.Run.Targets.{build-download_result}
use osbuild.Run.Stopped.{IsDistinct, build-stopped}
use osbuild.Formats.V2.Output.{
  first_failing, source_error, stage_error, last_result, last_stage, source_failure, stage_failure,
  failure_part, get_if_in, item_output, item_outputs, source_outputs, sources_section, result_part,
  output,
}

-- The metadata that the source services sent are JSON objects.
abbrev pub IsObject : SourceItemResult → Type 0
IsObject r = (fs : Fields) × (r.metadata ≡ obj fs)

abbrev pub HasObjects : Dict SourceResults → Type 0
HasObjects = All (λ (e : String × SourceResults). All IsObject e.1.results)

item_output-total : (r : SourceItemResult) → IsObject r → (j : Json) × (item_output r ≡ ok j)
unfolding item_output get_if_in
item_output-total r (fs, e) = rw e (_, refl)

item_outputs-total :
    (rs : List SourceItemResult) → All IsObject rs → (js : Items) × (item_outputs rs ≡ ok js)
unfolding item_outputs
item_outputs-total [] a = (_, refl)
item_outputs-total (r ∷ rs) (a, later) =
    let (j, one) = item_output-total r a in
    let (js, rest) = item_outputs-total rs later in rw (one, rest) (_, refl)

source_outputs-total :
    (srcs : Dict SourceResults) (section : Dict Json)
    → HasObjects srcs
    → (d : Dict Json) × (source_outputs srcs section ≡ ok d)
unfolding source_outputs
source_outputs-total [] section a = (_, refl)
source_outputs-total ((name, src) ∷ rest) section (a, later) =
    let (js, one) = item_outputs-total src.results a in
    rw one (source_outputs-total rest (Dict.put name (arr js) section) later)

last_result-snoc :
    (rs : Results) (id : Option String) (pr : PipelineResult)
    → last_result (rs ++ (id, pr) ∷ []) ≡ ok pr
unfolding last_result
last_result-snoc [] id pr = refl
last_result-snoc ((i, x) ∷ []) id pr = refl
last_result-snoc ((i, x) ∷ next ∷ rest) id pr = last_result-snoc (next ∷ rest) id pr

last_stage-snoc : (rs : List StageResult) (r : StageResult) → last_stage (rs ++ r ∷ []) ≡ ok r
unfolding last_stage
last_stage-snoc [] r = refl
last_stage-snoc (x ∷ []) r = refl
last_stage-snoc (x ∷ next ∷ rest) r = last_stage-snoc (next ∷ rest) r

stage_failure-last :
    (rs before : Results) (id : Option String) (pr : PipelineResult) (done : List StageResult)
    (failed : StageResult)
    → rs ≡ before ++ (id, pr) ∷ []
    → pr.stages ≡ done ++ failed ∷ []
    → stage_failure rs ≡ ok (stage_error failed)
unfolding stage_failure
stage_failure-last rs before id pr done failed whole stages =
    rw (whole, last_result-snoc before id pr, stages, last_stage-snoc done failed) refl

module _ {C : Type 0} (meta : C → String → Dict Json) (h : Digest) (m : Manifest) where
  -- The output is a failure that holds the error of the given part.
  abbrev pub Says : ManifestBuildResult → Option (ObjectStore C) → Dict Json → Type 0
  Says res s part =
      (j : Json) × (output meta h m res s ≡ ok (j, s))
      × (item "success" j ≡ ok (bool false))
      × (item "error" j ≡ item "error" (obj (fields part)))

  output-Says :
      (res : ManifestBuildResult) (s : Option (ObjectStore C)) (part : Dict Json)
      → res.success ≡ false
      → failure_part res ≡ ok part
      → HasObjects res.download_result.sources
      → ((rest : Dict Json) → item "success" (obj (fields (part ++ rest))) ≡ ok (bool false))
      → ((rest : Dict Json)
          → item "error" (obj (fields (part ++ rest))) ≡ item "error" (obj (fields part)))
      → Says res s part
  unfolding output result_part sources_section
  output-Says res s part down failed a success error =
      let (sources, written) =
        source_outputs-total res.download_result.sources
          (("success", bool res.download_result.success) ∷ []) a in
      rw (down, failed, written) (_, refl, success _, error _)

first_failing-found :
    (srcs : Dict SourceResults) (name : String) (src : SourceResults)
    → first_failing srcs ≡ some (name, src)
    → Has (name, src) srcs × (truthy src.success ≡ false)
unfolding first_failing
first_failing-found [] name src e = cc
first_failing-found ((other, x) ∷ rest) name src e = elim (Bool-cases (truthy x.success)) [
  | inl fine ↦
      let (there, bad) = first_failing-found rest name src (rw fine at e) in (inr there, bad)
  | inr broken ↦
      let here : ◌≡◌ {A = Option (String × SourceResults)} (some (other, x)) (some (name, src)) =
        (rw broken at e) in
      let same : (other, x) ≡ (name, src) = cc in
      (
        inl (sym same),
        subst (λ (e : String × SourceResults). truthy e.1.success ≡ false) same broken,
      )
]

abbrev SomeFails : Dict SourceResults → Type 0
SomeFails srcs = (e : String × SourceResults) × (first_failing srcs ≡ some e)

first_failing-put_bad :
    (name : String) (src : SourceResults) (srcs : Dict SourceResults)
    → truthy src.success ≡ false
    → SomeFails (Dict.put name src srcs)
unfolding first_failing Dict.put
first_failing-put_bad name src [] bad = rw bad (_, refl)
first_failing-put_bad name src ((other, x) ∷ rest) bad = elim (Bool-cases (other == name)) [
  | inl same ↦ rw (same, bad) (_, refl)
  | inr apart ↦ elim (Bool-cases (truthy x.success)) [
    | inl fine ↦ rw (apart, fine) (first_failing-put_bad name src rest bad)
    | inr broken ↦ rw (apart, broken) (_, refl)
  ]
]

first_failing-put :
    (name : String) (src : SourceResults) (srcs : Dict SourceResults)
    → Dict.has name srcs ≡ false
    → SomeFails srcs
    → SomeFails (Dict.put name src srcs)
unfolding first_failing Dict.put Dict.has
first_failing-put name src [] new (e, found) = absurd (cc)
first_failing-put name src ((other, x) ∷ rest) new (e, found) = elim (Bool-cases (other == name)) [
  | inl same ↦ let never : true ≡ false = (rw same at new) in cc
  | inr apart ↦ elim (Bool-cases (truthy x.success)) [
    | inl fine ↦
        rw (apart, fine) (first_failing-put name src rest (rw apart at new) (e, (rw fine at found)))
    | inr broken ↦ rw (apart, broken) (_, refl)
  ]
]

-- No two of the sources have the same type, and none has one of `seen`.
abbrev pub IsUnique : List String → List Source → Type 0
IsUnique seen [] = Unit
IsUnique seen (src ∷ rest) = (¬ Has src.info_name seen) × IsUnique (src.info_name ∷ seen) rest

abbrev FailsWhenDown : DownloadResult → Type 0
FailsWhenDown dr = dr.success ≡ false → SomeFails dr.sources

add_results-FailsWhenDown :
    (name : String) (results : SourceResults) (dr : DownloadResult)
    → Dict.has name dr.sources ≡ false
    → FailsWhenDown dr
    → FailsWhenDown (add_results name results dr)
unfolding add_results
add_results-FailsWhenDown name results dr new inv down =
    elim (Bool-cases (truthy results.success)) [
      | inl fine ↦ first_failing-put name results dr.sources new (inv (rw fine at down))
      | inr broken ↦ first_failing-put_bad name results dr.sources broken
    ]

has-put_sub :
    (name : String) (results : SourceResults) (srcs : Dict SourceResults) (seen : List String)
    → ((i : String) → Dict.has i srcs ≡ true → Has i seen)
    → (i : String) → Dict.has i (Dict.put name results srcs) ≡ true
    → Has i (name ∷ seen)
has-put_sub name results srcs seen sub i e = elim (Bool-cases (name == i)) [
  | inl same ↦ inl (ground (arith, eq_iff name i))
  | inr apart ↦ inr (sub i (rw (Dict.has-put, apart) at e))
]

module _ (call : Source → Result Json) where
  download_all-FailsWhenDown :
      (sources : List Source) (seen : List String) (dr dr' : DownloadResult)
      → IsUnique seen sources
      → ((i : String) → Dict.has i dr.sources ≡ true → Has i seen)
      → FailsWhenDown dr
      → download_all call sources dr ≡ ok dr'
      → FailsWhenDown dr'
  unfolding download_all add_results
  download_all-FailsWhenDown [] seen dr dr' u sub inv e =
      let same : dr ≡ dr' = cc in subst FailsWhenDown same inv
  download_all-FailsWhenDown (src ∷ rest) seen dr dr' u sub inv e =
      let (results, got, e₁) = >>=-eq-ok (source_download call src) _ e in
      let new : Dict.has src.info_name dr.sources ≡ false =
        elim (Bool-cases (Dict.has src.info_name dr.sources)) [
          | inl there ↦ absurd (u.0 (sub src.info_name there))
          | inr new ↦ new
        ] in
      download_all-FailsWhenDown rest (src.info_name ∷ seen) (add_results src.info_name results dr)
        dr' u.1 (has-put_sub src.info_name results dr.sources seen sub)
        (add_results-FailsWhenDown src.info_name results dr new inv) e₁

module _ {C : Type 0} (meta : C → String → Dict Json) (h : Digest) (k : Contents C) (exec : Exec C)
    (m : Manifest) (call : Source → Result Json) where
  -- When the download succeeds, the targets name pipelines with different ids, `build` returns a
  -- failure, and the metadata that the source services sent are objects, then `output` raises nothing
  -- and gives the error of one stage: the last stage of the last result, which is the one that failed.
  pub output-stage_error :
      (targets : List String) (s t : ObjectStore C) (mbr : ManifestBuildResult)
      (u : Option (ObjectStore C))
      → IsDistinct h m [] targets
      → build h k exec m call targets s ≡ ok (mbr, t)
      → mbr.success ≡ false
      → mbr.download_result.success ≡ true
      → HasObjects mbr.download_result.sources
      → (before : Results) × (id : Option String) × (pr : PipelineResult) × (done : List
          StageResult)
        × (failed : StageResult) × (mbr.pipeline_results ≡ before ++ (id, pr) ∷ [])
        × (pr.stages ≡ done ++ failed ∷ [])
        × (failed.success ≡ false)
        × Says meta h m mbr u (stage_error failed)
  unfolding failure_part item
  output-stage_error targets s t mbr u apart e down fine a =
      let loaded = build-download_result h k exec m call targets s t mbr e in
      let (before, id, pr, whole, good, bad, stopped) =
        build-stopped h k exec m call targets s t mbr mbr.download_result loaded fine apart e
          down in
      let (done, failed, stages, ups, broken) = stopped in
      let part : failure_part mbr ≡ ok (stage_error failed) =
        rw fine (stage_failure-last mbr.pipeline_results before id pr done failed whole stages) in
      (
        before,
        id,
        pr,
        done,
        failed,
        whole,
        stages,
        broken,
        output-Says meta h m mbr u (stage_error failed) down part a (λ rest. refl) (λ rest. refl),
      )

  -- When the download fails, no two sources of the manifest have the same type, and the metadata that
  -- the source services sent are objects, then `output` raises nothing and gives the error of a source
  -- that failed.
  pub output-source_error :
      (targets : List String) (s t : ObjectStore C) (mbr : ManifestBuildResult)
      (u : Option (ObjectStore C))
      → IsUnique [] m.sources
      → build h k exec m call targets s ≡ ok (mbr, t)
      → mbr.success ≡ false
      → mbr.download_result.success ≡ false
      → HasObjects mbr.download_result.sources
      → (name : String) × (src : SourceResults) × Has (name, src) mbr.download_result.sources
        × (truthy src.success ≡ false)
        × Says meta h m mbr u (source_error name src)
  unfolding failure_part source_failure item download Dict.has
  output-source_error targets s t mbr u unique e down broken a =
      let loaded = build-download_result h k exec m call targets s t mbr e in
      let ((name, src), found) =
        download_all-FailsWhenDown call m.sources [] _ mbr.download_result unique (λ i never. cc)
          (λ never. cc) loaded broken in
      let (there, bad) = first_failing-found mbr.download_result.sources name src found in
      let part : failure_part mbr ≡ ok (source_error name src) = rw (broken, found) refl in
      (
        name,
        src,
        there,
        bad,
        output-Says meta h m mbr u (source_error name src) down part a (λ rest. refl)
            (λ rest. refl),
      )

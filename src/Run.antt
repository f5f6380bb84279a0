-- ===== src/Run.antt =====
-- osbuild/pipeline.py: `Manifest.download` and `Manifest.build` with their results. The answer of a
-- source service is the parameter `call`; the effect of a stage is `exec`, as in Build.
pub mod Targets
pub mod Stopped
use osbuild.Prelude.{
  ℕ, String, Bool, true, false, Option, none, some, List, [], ◌∷◌, if◌then◌else◌, opt_eq, Result,
  ok, err, ◌>>=◌,
}
use osbuild.Prelude.Dict
use osbuild.Prelude.Dict.{Dict}
use osbuild.Json.{Json, truthy}
use osbuild.Digest.{Digest}
use osbuild.Objects.{Pipeline, Source, Manifest}
use osbuild.Pipeline.{pipeline_id}
use osbuild.Manifest.{get_item}
use osbuild.ObjectStore.{ObjectStore, Contents}
use osbuild.Build.{Exec, PipelineResult, run}
use osbuild.Sources.{SourceResults, results_from_dict}

pub record DownloadResult : Type 0 where
  pub success : Bool
  pub sources : Dict SourceResults

abbrev pub download_result_init : DownloadResult
download_result_init = record { success = true; sources = [] }

unfoldable pub add_results : String → SourceResults → DownloadResult → DownloadResult
add_results source_type results dr = record dr {
  success = if truthy results.success then dr.success else false;
  sources = Dict.put source_type results dr.sources;
}

-- Results by the id of their pipeline; a pipeline without stages has the id `None`.
abbrev pub Results : Type 0
Results = List (Option String × PipelineResult)

unfoldable pub put_result : Option String → PipelineResult → Results → Results
put_result id pr [] = (id, pr) ∷ []
put_result id pr ((j, other) ∷ rest) =
    if opt_eq j id then (j, pr) ∷ rest else (j, other) ∷ put_result id pr rest

unfoldable pub find_result : Option String → Results → Option PipelineResult
find_result id [] = none
find_result id ((j, pr) ∷ rest) = if opt_eq j id then some pr else find_result id rest

pub record ManifestBuildResult : Type 0 where
  pub success : Bool
  pub download_result : DownloadResult
  pub pipeline_results : Results

abbrev pub build_result_init : DownloadResult → ManifestBuildResult
build_result_init dr = record { success = dr.success; download_result = dr; pipeline_results = [] }

unfoldable pub add_pipeline_result :
    Option String → PipelineResult → ManifestBuildResult → ManifestBuildResult
unfolding put_result
add_pipeline_result id pr mbr = record mbr {
  pipeline_results = put_result id pr mbr.pipeline_results;
  success = if pr.success then mbr.success else false;
}

module _ (call : Source → Result Json) where
  unfoldable pub source_download : Source → Result SourceResults
  source_download source = call source >>= results_from_dict

  -- The loop of `download`.
  unfoldable pub download_all : List Source → DownloadResult → Result DownloadResult
  unfolding source_download add_results
  download_all [] dr = ok dr
  download_all (source ∷ rest) dr = source_download source >>= λ results.
      download_all rest (add_results source.info_name results dr)

  unfoldable pub download : Manifest → Result DownloadResult
  unfolding download_all
  download m = download_all m.sources download_result_init

module _ {C : Type 0} (h : Digest) (k : Contents C) (exec : Exec C) (m : Manifest) where
  -- A failure ends the build; `next` is the rest of it.
  abbrev pub unless_failed :
      Result (ManifestBuildResult × ObjectStore C)
      → ManifestBuildResult
      → ObjectStore C
      → Result (ManifestBuildResult × ObjectStore C)
  unless_failed next mbr s = elim mbr.success [ false ↦ ok (mbr, s) | true ↦ next ]

  -- The loop of `build`.
  unfoldable pub build_pipelines :
      List String
      → ManifestBuildResult
      → ObjectStore C
      → Result (ManifestBuildResult × ObjectStore C)
  unfolding add_pipeline_result
  build_pipelines [] mbr s = ok (mbr, s)
  build_pipelines (name ∷ rest) mbr s = do
    pl ← get_item h m (some name)
    res ← run h k exec pl s
    let mbr' = add_pipeline_result (pipeline_id h pl) res.0 mbr
    unless_failed (build_pipelines rest mbr' res.1) mbr' res.1

  unfoldable pub build :
      (Source → Result Json)
      → List String
      → ObjectStore C
      → Result (ManifestBuildResult × ObjectStore C)
  unfolding build_pipelines
  build call pipelines s = download call m >>= λ dr.
      unless_failed (build_pipelines pipelines (build_result_init dr) s) (build_result_init dr) s

-- ===== src/Tests/Runs.antt =====
-- Runs of `Manifest.build` of osbuild/pipeline.py and of `output` of osbuild/formats/v2.py: a manifest
-- with one source and one pipeline, built with success, with a stage that fails and with a source that
-- fails.
use osbuild.Prelude.{
  ℕ, String, true, false, List, [], ◌∷◌, ◌++◌, Option, none, some, Result, ok, err, ◌≡◌, refl, inl,
  All, Has,
}
use osbuild.Prelude.Dict.{Dict}
use osbuild.Json.{Json, bool, str, arr, obj, nil, cons, end, field, truthy}
use osbuild.Objects.{Source, Manifest}
use osbuild.ObjectStore.{ObjectStore}
use osbuild.Build.{Exec, StageResult, PipelineResult}
use osbuild.Sources.{SourceResults}
use osbuild.Run.{
  DownloadResult, Results, ManifestBuildResult, build_result_init, download_result_init, download,
  build,
}
use osbuild.Run.Targets.{AllGood, IsBuilt, build-success}
use osbuild.Run.Stopped.{EndsBadly, build-stopped}
use osbuild.Formats.V2.Output.{source_error, stage_error}
use osbuild.Formats.V2.Output.Errors.{HasObjects, Says, output-stage_error, output-source_error}
use osbuild.Tests.Builds.{contents, exec, broken, start, tree}
use osbuild.Tests.Samples.{digest}

abbrev source : Source
source = record { info_name = "org.osbuild.curl"; items = []; options = obj end }

abbrev image : Manifest
image = record { metadata = []; pipelines = ("tree", tree) ∷ []; sources = source ∷ [] }

abbrev reply : Json → Json → Json
reply success error = obj (
    field "source_type" (str "org.osbuild.curl") (
      field "success" success (
        field "results" (arr (cons (obj (field "success" success (field "error" error end))) nil))
          end)))

abbrev fetched : Source → Result Json
fetched s = ok (reply (bool true) (str ""))

abbrev refused : Source → Result Json
refused s = ok (reply (bool false) (str "curl: error"))

abbrev run_with : Exec ℕ → (Source → Result Json) → Result (ManifestBuildResult × ObjectStore ℕ)
run_with effect call = build digest contents effect image call ("tree" ∷ []) start

abbrev result_of : Result (ManifestBuildResult × ObjectStore ℕ) → ManifestBuildResult
result_of (ok (mbr, s)) = mbr
result_of (err e) = build_result_init download_result_init

abbrev store_of : Result (ManifestBuildResult × ObjectStore ℕ) → ObjectStore ℕ
store_of (ok (mbr, s)) = s
store_of (err e) = start

abbrev built : Result (ManifestBuildResult × ObjectStore ℕ)
built = run_with exec fetched

built_run : built ≡ ok (result_of built, store_of built)
unfolding build download osbuild.Sources.results_from_dict osbuild.Json.Reads.item
    osbuild.Json.Reads.iterate osbuild.Sources.item_from_dict osbuild.Manifest.get_item
    osbuild.Prelude.Dict.get osbuild.Build.run osbuild.Build.build_stages
    osbuild.ObjectStore.contains osbuild.Pipeline.pipeline_id osbuild.Stage.stage_id
    osbuild.ObjectStore.get_floating osbuild.FsCache.load osbuild.FsCache.is_compatible
    osbuild.ObjectStore.new osbuild.Build.plan osbuild.ObjectStore.get osbuild.ObjectStore.init
    osbuild.Build.run_stages osbuild.Build.stage_result_init osbuild.Build.set_stages
    osbuild.Json.Reads.get_or osbuild.Run.add_results osbuild.Prelude.Dict.put
    osbuild.Build.build_missing osbuild.Build.find_build_tree osbuild.Run.build_pipelines
    osbuild.Build.all_success
built_run = refl

built_success : (result_of built).success ≡ true
unfolding build download osbuild.Sources.results_from_dict osbuild.Json.Reads.item
    osbuild.Json.Reads.iterate osbuild.Sources.item_from_dict osbuild.Manifest.get_item
    osbuild.Prelude.Dict.get osbuild.Build.run osbuild.Build.build_stages
    osbuild.ObjectStore.contains osbuild.Pipeline.pipeline_id osbuild.Stage.stage_id
    osbuild.ObjectStore.get_floating osbuild.FsCache.load osbuild.FsCache.is_compatible
    osbuild.ObjectStore.new osbuild.Build.plan osbuild.ObjectStore.get osbuild.ObjectStore.init
    osbuild.Build.run_stages osbuild.Build.stage_result_init osbuild.Build.set_stages
    osbuild.Json.Reads.get_or osbuild.Run.add_results osbuild.Prelude.Dict.put
    osbuild.Build.build_missing osbuild.Build.find_build_tree osbuild.Run.build_pipelines
    osbuild.Build.all_success
built_success = refl

abbrev failed : Result (ManifestBuildResult × ObjectStore ℕ)
failed = run_with broken fetched

failed_run : failed ≡ ok (result_of failed, store_of failed)
unfolding build download osbuild.Sources.results_from_dict osbuild.Json.Reads.item
    osbuild.Json.Reads.iterate osbuild.Sources.item_from_dict osbuild.Manifest.get_item
    osbuild.Prelude.Dict.get osbuild.Build.run osbuild.Build.build_stages
    osbuild.ObjectStore.contains osbuild.Pipeline.pipeline_id osbuild.Stage.stage_id
    osbuild.ObjectStore.get_floating osbuild.FsCache.load osbuild.FsCache.is_compatible
    osbuild.ObjectStore.new osbuild.Build.plan osbuild.ObjectStore.get osbuild.ObjectStore.init
    osbuild.Build.run_stages osbuild.Build.stage_result_init osbuild.Build.set_stages
    osbuild.Json.Reads.get_or osbuild.Run.add_results osbuild.Prelude.Dict.put
    osbuild.Build.build_missing osbuild.Build.find_build_tree osbuild.Run.build_pipelines
    osbuild.Build.all_success
failed_run = refl

failed_success : (result_of failed).success ≡ false
unfolding build download osbuild.Sources.results_from_dict osbuild.Json.Reads.item
    osbuild.Json.Reads.iterate osbuild.Sources.item_from_dict osbuild.Manifest.get_item
    osbuild.Prelude.Dict.get osbuild.Build.run osbuild.Build.build_stages
    osbuild.ObjectStore.contains osbuild.Pipeline.pipeline_id osbuild.Stage.stage_id
    osbuild.ObjectStore.get_floating osbuild.FsCache.load osbuild.FsCache.is_compatible
    osbuild.ObjectStore.new osbuild.Build.plan osbuild.ObjectStore.get osbuild.ObjectStore.init
    osbuild.Build.run_stages osbuild.Build.stage_result_init osbuild.Build.set_stages
    osbuild.Json.Reads.get_or osbuild.Run.add_results osbuild.Prelude.Dict.put
    osbuild.Build.build_missing osbuild.Build.find_build_tree osbuild.Run.build_pipelines
    osbuild.Build.all_success
failed_success = refl

abbrev missed : Result (ManifestBuildResult × ObjectStore ℕ)
missed = run_with exec refused

missed_run : missed ≡ ok (result_of missed, store_of missed)
unfolding build download osbuild.Sources.results_from_dict osbuild.Json.Reads.item
    osbuild.Json.Reads.iterate osbuild.Sources.item_from_dict osbuild.Manifest.get_item
    osbuild.Prelude.Dict.get osbuild.Build.run osbuild.Build.build_stages
    osbuild.ObjectStore.contains osbuild.Pipeline.pipeline_id osbuild.Stage.stage_id
    osbuild.ObjectStore.get_floating osbuild.FsCache.load osbuild.FsCache.is_compatible
    osbuild.ObjectStore.new osbuild.Build.plan osbuild.ObjectStore.get osbuild.ObjectStore.init
    osbuild.Build.run_stages osbuild.Build.stage_result_init osbuild.Build.set_stages
    osbuild.Json.Reads.get_or osbuild.Run.add_results osbuild.Prelude.Dict.put
    osbuild.Build.build_missing osbuild.Build.find_build_tree osbuild.Run.build_pipelines
    osbuild.Build.all_success
missed_run = refl

missed_success : (result_of missed).success ≡ false
unfolding build download osbuild.Sources.results_from_dict osbuild.Json.Reads.item
    osbuild.Json.Reads.iterate osbuild.Sources.item_from_dict osbuild.Manifest.get_item
    osbuild.Prelude.Dict.get osbuild.Build.run osbuild.Build.build_stages
    osbuild.ObjectStore.contains osbuild.Pipeline.pipeline_id osbuild.Stage.stage_id
    osbuild.ObjectStore.get_floating osbuild.FsCache.load osbuild.FsCache.is_compatible
    osbuild.ObjectStore.new osbuild.Build.plan osbuild.ObjectStore.get osbuild.ObjectStore.init
    osbuild.Build.run_stages osbuild.Build.stage_result_init osbuild.Build.set_stages
    osbuild.Json.Reads.get_or osbuild.Run.add_results osbuild.Prelude.Dict.put
    osbuild.Build.build_missing osbuild.Build.find_build_tree osbuild.Run.build_pipelines
    osbuild.Build.all_success
missed_success = refl

build-success_example :
    (dr : DownloadResult) × (download fetched image ≡ ok dr)
    × (dr.success ≡ true)
    × AllGood (result_of built).pipeline_results
    × All (IsBuilt digest contents exec image (result_of built).pipeline_results) ("tree" ∷ [])
build-success_example =
    build-success digest contents exec image fetched ("tree" ∷ []) start (store_of built)
      (result_of built) built_run built_success

failed-download : download fetched image ≡ ok (result_of failed).download_result
unfolding build download osbuild.Sources.results_from_dict osbuild.Json.Reads.item
    osbuild.Json.Reads.iterate osbuild.Sources.item_from_dict osbuild.Manifest.get_item
    osbuild.Prelude.Dict.get osbuild.Build.run osbuild.Build.build_stages
    osbuild.ObjectStore.contains osbuild.Pipeline.pipeline_id osbuild.Stage.stage_id
    osbuild.ObjectStore.get_floating osbuild.FsCache.load osbuild.FsCache.is_compatible
    osbuild.ObjectStore.new osbuild.Build.plan osbuild.ObjectStore.get osbuild.ObjectStore.init
    osbuild.Build.run_stages osbuild.Build.stage_result_init osbuild.Build.set_stages
    osbuild.Json.Reads.get_or osbuild.Run.add_results osbuild.Prelude.Dict.put
    osbuild.Build.build_missing osbuild.Build.find_build_tree osbuild.Run.build_pipelines
    osbuild.Build.all_success
failed-download = refl

failed_download_success : (result_of failed).download_result.success ≡ true
unfolding build download osbuild.Sources.results_from_dict osbuild.Json.Reads.item
    osbuild.Json.Reads.iterate osbuild.Sources.item_from_dict osbuild.Manifest.get_item
    osbuild.Prelude.Dict.get osbuild.Build.run osbuild.Build.build_stages
    osbuild.ObjectStore.contains osbuild.Pipeline.pipeline_id osbuild.Stage.stage_id
    osbuild.ObjectStore.get_floating osbuild.FsCache.load osbuild.FsCache.is_compatible
    osbuild.ObjectStore.new osbuild.Build.plan osbuild.ObjectStore.get osbuild.ObjectStore.init
    osbuild.Build.run_stages osbuild.Build.stage_result_init osbuild.Build.set_stages
    osbuild.Json.Reads.get_or osbuild.Run.add_results osbuild.Prelude.Dict.put
    osbuild.Build.build_missing osbuild.Build.find_build_tree osbuild.Run.build_pipelines
    osbuild.Build.all_success
failed_download_success = refl

build-stopped_example : EndsBadly (result_of failed).pipeline_results
build-stopped_example =
    build-stopped digest contents broken image fetched ("tree" ∷ []) start (store_of failed)
      (result_of failed) (result_of failed).download_result failed-download failed_download_success
      (λ w. w, tt) failed_run failed_success

abbrev no_metadata : ℕ → String → Dict Json
no_metadata content id = []

failed_objects : HasObjects (result_of failed).download_result.sources
unfolding build download osbuild.Sources.results_from_dict osbuild.Json.Reads.item
    osbuild.Json.Reads.iterate osbuild.Sources.item_from_dict osbuild.Manifest.get_item
    osbuild.Prelude.Dict.get osbuild.Build.run osbuild.Build.build_stages
    osbuild.ObjectStore.contains osbuild.Pipeline.pipeline_id osbuild.Stage.stage_id
    osbuild.ObjectStore.get_floating osbuild.FsCache.load osbuild.FsCache.is_compatible
    osbuild.ObjectStore.new osbuild.Build.plan osbuild.ObjectStore.get osbuild.ObjectStore.init
    osbuild.Build.run_stages osbuild.Build.stage_result_init osbuild.Build.set_stages
    osbuild.Json.Reads.get_or osbuild.Run.add_results osbuild.Prelude.Dict.put
    osbuild.Build.build_missing osbuild.Build.find_build_tree osbuild.Run.build_pipelines
    osbuild.Build.all_success
failed_objects = (((end, refl), tt), tt)

output-stage_error_example :
    (before : Results) × (id : Option String) × (pr : PipelineResult) × (done : List StageResult)
    × (last : StageResult) × ((result_of failed).pipeline_results ≡ before ++ (id, pr) ∷ [])
    × (pr.stages ≡ done ++ last ∷ [])
    × (last.success ≡ false)
    × Says no_metadata digest image (result_of failed) none (stage_error last)
output-stage_error_example =
    output-stage_error no_metadata digest contents broken image fetched ("tree" ∷ []) start
      (store_of failed) (result_of failed) none (λ w. w, tt) failed_run failed_success
      failed_download_success failed_objects

missed_download_success : (result_of missed).download_result.success ≡ false
unfolding build download osbuild.Sources.results_from_dict osbuild.Json.Reads.item
    osbuild.Json.Reads.iterate osbuild.Sources.item_from_dict osbuild.Manifest.get_item
    osbuild.Prelude.Dict.get osbuild.Build.run osbuild.Build.build_stages
    osbuild.ObjectStore.contains osbuild.Pipeline.pipeline_id osbuild.Stage.stage_id
    osbuild.ObjectStore.get_floating osbuild.FsCache.load osbuild.FsCache.is_compatible
    osbuild.ObjectStore.new osbuild.Build.plan osbuild.ObjectStore.get osbuild.ObjectStore.init
    osbuild.Build.run_stages osbuild.Build.stage_result_init osbuild.Build.set_stages
    osbuild.Json.Reads.get_or osbuild.Run.add_results osbuild.Prelude.Dict.put
    osbuild.Build.build_missing osbuild.Build.find_build_tree osbuild.Run.build_pipelines
    osbuild.Build.all_success
missed_download_success = refl

missed_objects : HasObjects (result_of missed).download_result.sources
unfolding build download osbuild.Sources.results_from_dict osbuild.Json.Reads.item
    osbuild.Json.Reads.iterate osbuild.Sources.item_from_dict osbuild.Manifest.get_item
    osbuild.Prelude.Dict.get osbuild.Build.run osbuild.Build.build_stages
    osbuild.ObjectStore.contains osbuild.Pipeline.pipeline_id osbuild.Stage.stage_id
    osbuild.ObjectStore.get_floating osbuild.FsCache.load osbuild.FsCache.is_compatible
    osbuild.ObjectStore.new osbuild.Build.plan osbuild.ObjectStore.get osbuild.ObjectStore.init
    osbuild.Build.run_stages osbuild.Build.stage_result_init osbuild.Build.set_stages
    osbuild.Json.Reads.get_or osbuild.Run.add_results osbuild.Prelude.Dict.put
    osbuild.Build.build_missing osbuild.Build.find_build_tree osbuild.Run.build_pipelines
    osbuild.Build.all_success
missed_objects = (((end, refl), tt), tt)

output-source_error_example :
    (name : String) × (src : SourceResults) × Has
      (name, src)
      (result_of missed).download_result.sources
    × (truthy src.success ≡ false)
    × Says no_metadata digest image (result_of missed) none (source_error name src)
output-source_error_example =
    output-source_error no_metadata digest contents exec image refused ("tree" ∷ []) start
      (store_of missed) (result_of missed) none (λ w. w, tt) missed_run missed_success
      missed_download_success missed_objects

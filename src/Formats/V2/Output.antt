-- ===== src/Formats/V2/Output.antt =====
-- osbuild/formats/v2.py: `output`, the result of a build as JSON. The metadata that the stages of an
-- object left is the parameter `meta`, empty where a stage left none. Without a store, as in tests,
-- no metadata is read.
pub mod Errors
use osbuild.Prelude.{
  ℕ, String, Bool, true, false, not, Option, none, some, List, [], ◌∷◌, ◌++◌, if◌then◌else◌, Result,
  ok, err, ◌>>=◌, runtime_error, index_error, type_error, ◌==◌,
}
use osbuild.Prelude.Dict
use osbuild.Prelude.Dict.{Dict}
use osbuild.Json.{
  when_truthy, Json, null, bool, num, number, str, arr, obj, Items, nil, cons, Fields, end, field,
  fields, truthy,
}
use osbuild.Json.Reads.{find}
use osbuild.Digest.{Digest}
use osbuild.Objects.{Stage, Pipeline, Manifest}
use osbuild.Stage.{stage_id}
use osbuild.Pipeline.{pipeline_id}
use osbuild.ObjectStore
use osbuild.ObjectStore.{ObjectStore, Object}
use osbuild.Build.{StageResult, PipelineResult}
use osbuild.Sources.{SourceItemResult, SourceResults}
use osbuild.Run.{DownloadResult, Results, find_result, ManifestBuildResult}
use text.Mathlib.Text.{find?}

-- `failing_sources[0]`, where there is one
unfoldable pub first_failing : Dict SourceResults → Option (String × SourceResults)
first_failing [] = none
first_failing ((name, src) ∷ rest) =
    if truthy src.success then first_failing rest else some (name, src)

unfoldable pub first_failing_item : List SourceItemResult → Option SourceItemResult
first_failing_item [] = none
first_failing_item (r ∷ rest) = if truthy r.success then first_failing_item rest else some r

abbrev pub item_error : Option SourceItemResult → Json
item_error none = str "cannot find failing source item"
item_error (some r) = r.error

abbrev error_part : String → Json → Dict Json
error_part kind details =
    ("type", str "error")
    ∷ ("success", bool false)
    ∷ ("error", obj (fields (("type", str kind) ∷ ("details", details) ∷ [])))
    ∷ []

abbrev source_details : String → Json → Json
source_details name error =
    obj (fields (("source", obj (fields (("type", str name) ∷ ("output", error) ∷ []))) ∷ []))

abbrev pub source_error : String → SourceResults → Dict Json
source_error name src =
    error_part "org.osbuild.error.source"
      (source_details name (item_error (first_failing_item src.results)))

abbrev stage_details : StageResult → Json
stage_details failed = obj (
    fields (
      (
        "stage",
        obj (
            fields (
              ("id", str failed.id)
              ∷ ("type", str failed.name)
              ∷ ("output", str failed.output)
              ∷ ("error", failed.error)
              ∷ [])),
      )
      ∷ []))

abbrev pub stage_error : StageResult → Dict Json
stage_error failed = error_part "org.osbuild.error.stage" (stage_details failed)

-- `pr[list(pr.keys())[-1]]`
unfoldable pub last_result : Results → Result PipelineResult
last_result [] = err index_error
last_result ((id, pr) ∷ []) = ok pr
last_result ((id, pr) ∷ next ∷ rest) = last_result (next ∷ rest)

-- `stages[-1]`
unfoldable pub last_stage : List StageResult → Result StageResult
last_stage [] = err index_error
last_stage (r ∷ []) = ok r
last_stage (r ∷ next ∷ rest) = last_stage (next ∷ rest)

abbrev found_source : Option (String × SourceResults) → Result (Dict Json)
found_source none = err runtime_error
found_source (some (name, src)) = ok (source_error name src)

unfoldable pub source_failure : DownloadResult → Result (Dict Json)
unfolding first_failing
source_failure dr = found_source (first_failing dr.sources)

unfoldable pub stage_failure : Results → Result (Dict Json)
unfolding last_result last_stage
stage_failure results = do
  last ← last_result results
  failed ← last_stage last.stages
  ok (stage_error failed)

unfoldable pub failure_part : ManifestBuildResult → Result (Dict Json)
unfolding source_failure stage_failure
failure_part res =
    if res.download_result.success
    then stage_failure res.pipeline_results
    else source_failure res.download_result

-- `val.update(md)`
unfoldable pub update : Dict Json → Dict Json → Dict Json
update val [] = val
update val ((k, v) ∷ md) = update (Dict.put k v val) md

abbrev val_of : Option (Dict Json) → Dict Json
val_of none = []
val_of (some val) = val

abbrev objects : Dict (Dict Json) → Dict Json
objects [] = []
objects ((k, d) ∷ rest) = (k, obj (fields d)) ∷ objects rest

module _ {C : Type 0} (meta : C → String → Dict Json) (h : Digest) where
  abbrev add_metadata : String → Dict Json → Dict (Dict Json) → Dict (Dict Json)
  add_metadata name [] notes = notes
  add_metadata name (entry ∷ md) notes =
      Dict.put name (update (val_of (Dict.get name notes)) (entry ∷ md)) notes

  -- The loop of `collect_metadata`.
  unfoldable pub stage_metadata : C → List Stage → Dict (Dict Json) → Dict (Dict Json)
  unfolding update
  stage_metadata content [] notes = notes
  stage_metadata content (stage ∷ rest) notes =
      stage_metadata content rest
        (add_metadata stage.info_name (meta content (stage_id h stage)) notes)

  abbrev object_metadata : Pipeline → Option (Object C) × ObjectStore C → Dict (Dict Json)
  object_metadata p (none, s) = []
  object_metadata p (some o, s) = stage_metadata o.content p.stages []

  unfoldable pub collect_metadata :
      Pipeline → Option (ObjectStore C) → Result (Dict (Dict Json) × Option (ObjectStore C))
  unfolding stage_metadata
  collect_metadata p none = ok ([], none)
  collect_metadata p (some s) =
      ObjectStore.get (pipeline_id h p) s >>= λ res. ok (object_metadata p res, some res.1)

  abbrev noted : String → Dict (Dict Json) → Dict Json → Dict Json
  noted name [] all = all
  noted name (entry ∷ notes) all = Dict.put name (obj (fields (objects (entry ∷ notes)))) all

  unfoldable pub all_metadata :
      Dict Pipeline
      → Dict Json
      → Option (ObjectStore C)
      → Result (Dict Json × Option (ObjectStore C))
  unfolding collect_metadata
  all_metadata [] all s = ok (all, s)
  all_metadata ((key, p) ∷ rest) all s =
      collect_metadata p s >>= λ res. all_metadata rest (noted p.name res.0 all) res.1

abbrev success_part : Dict Json → Dict Json
success_part metadata =
    ("type", str "result") ∷ ("success", bool true) ∷ ("metadata", obj (fields metadata)) ∷ []

member : String → Items → Bool
member key nil = false
member key (cons (str s) xs) = if s == key then true else member key xs
member key (cons x xs) = member key xs

abbrev unless_in : Bool → Result (Option Json)
unless_in true = err type_error
unless_in false = ok none

abbrev is_found : Option ℕ → Bool
is_found none = false
is_found (some i) = true

-- `metadata[key]` where `key in metadata`. In a text or a list the key may be found, and is then no
-- index of it.
unfoldable pub get_if_in : String → Json → Result (Option Json)
unfolding member
get_if_in key (obj fs) = ok (find key fs)
get_if_in key (arr xs) = unless_in (member key xs)
get_if_in key (str s) = unless_in (is_found (find? s key))
get_if_in key null = err type_error
get_if_in key (bool b) = err type_error
get_if_in key (num n) = err type_error
get_if_in key (number s) = err type_error

abbrev when_some : String → Option Json → Dict Json
when_some key none = []
when_some key (some v) = (key, v) ∷ []

unfoldable pub item_output : SourceItemResult → Result Json
unfolding get_if_in
item_output r = do
  cached ← get_if_in "cached" r.metadata
  checksum ← get_if_in "checksum" r.metadata
  ok (
      obj (
        fields (
          when_some "cached" cached
          ++ (when_some "checksum" checksum ++ when_truthy "error" r.error))))

unfoldable pub item_outputs : List SourceItemResult → Result Items
unfolding item_output
item_outputs [] = ok nil
item_outputs (r ∷ rs) = item_output r >>= λ j. (item_outputs rs >>= λ js. ok (cons j js))

unfoldable pub source_outputs : Dict SourceResults → Dict Json → Result (Dict Json)
unfolding item_outputs
source_outputs [] section = ok section
source_outputs ((src_type, src) ∷ rest) section = item_outputs src.results >>= λ outputs.
    source_outputs rest (Dict.put src_type (arr outputs) section)

unfoldable pub sources_section : DownloadResult → Result (Dict Json)
unfolding source_outputs
sources_section dr = source_outputs dr.sources (("success", bool dr.success) ∷ [])

unfoldable pub stage_log : StageResult → Json
stage_log r = obj (
    fields (
      ("id", str r.id)
      ∷ ("type", str r.name)
      ∷ ("output", str r.output)
      ∷ (if r.success then [] else ("success", bool r.success) ∷ when_truthy "error" r.error)))

stage_logs : List StageResult → Items
unfolding stage_log
stage_logs [] = nil
stage_logs (r ∷ rs) = cons (stage_log r) (stage_logs rs)

abbrev unless_empty : String → Items → Dict Json → Dict Json
unless_empty name nil section = section
unless_empty name (cons j js) section = Dict.put name (arr (cons j js)) section

abbrev logged : String → Option PipelineResult → Dict Json → Dict Json
logged name none section = section
logged name (some pr) section = unless_empty name (stage_logs pr.stages) section

unfoldable pub log_section : Digest → Results → Dict Pipeline → Dict Json → Dict Json
unfolding stage_logs
log_section h results [] section = section
log_section h results ((key, p) ∷ rest) section =
    log_section h results rest (logged p.name (find_result (pipeline_id h p) results) section)

module _ {C : Type 0} (meta : C → String → Dict Json) (h : Digest) (m : Manifest) where
  unfoldable pub result_part :
      ManifestBuildResult → Option (ObjectStore C) → Result (Dict Json × Option (ObjectStore C))
  unfolding failure_part all_metadata
  result_part res s =
      if res.success
      then (all_metadata meta h m.pipelines [] s >>= λ all. ok (success_part all.0, all.1))
      else (failure_part res >>= λ part. ok (part, s))

  unfoldable pub output :
      ManifestBuildResult → Option (ObjectStore C) → Result (Json × Option (ObjectStore C))
  unfolding result_part sources_section log_section
  output res s = do
    head ← result_part res s
    sources ← sources_section res.download_result
    ok (
      obj (
          fields (
            head.0
            ++ ("sources", obj (fields sources))
              ∷ ("log", obj (fields (log_section h res.pipeline_results m.pipelines [])))
              ∷ [])),
      head.1,
    )

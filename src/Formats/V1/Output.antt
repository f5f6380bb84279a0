-- ===== src/Formats/V1/Output.antt =====
-- osbuild/formats/v1.py: `output`, the result of a build as JSON. The metadata of an object is the
-- parameter `meta`, as in V2. The build pipeline of a pipeline is looked up by its id, so the
-- recursion over build pipelines has fuel for as many as the manifest has pipelines, and one more.
pub mod Success
use osbuild.Prelude.{
  ℕ, zero, suc, String, Bool, true, false, Option, none, some, List, [], ◌∷◌, ◌++◌, length,
  if◌then◌else◌, truthy_name, Result, ok, err, ◌>>=◌, index_error, runtime_error,
}
use osbuild.Prelude.Dict
use osbuild.Prelude.Dict.{Dict}
use osbuild.Json.{Json, null, bool, str, arr, obj, Items, nil, cons, fields}
use osbuild.Digest.{Digest}
use osbuild.Objects.{Pipeline, Manifest}
use osbuild.Pipeline.{pipeline_id}
use osbuild.Manifest
use osbuild.Manifest.{get_item}
use osbuild.ObjectStore
use osbuild.ObjectStore.{Object, ObjectStore}
use osbuild.Build.{StageResult, PipelineResult}
use osbuild.Run.{Results, find_result, ManifestBuildResult}

-- What `output` reads of the metadata of an object: of one stage, or `null`.
abbrev pub Meta : Type 0 → Type 0
Meta C = C → String → Json

-- `results.get(pipeline.id, PipelineResult(''))`
abbrev pub or_empty_result : Option PipelineResult → PipelineResult
or_empty_result none = record { name = ""; success = true; stages = [] }
or_empty_result (some pr) = pr

module _ {C : Type 0} (meta : Meta C) where
  -- `obj and obj.meta.get(result.id)`. Without a store, or a pipeline's id, `obj` is that; the JSON
  -- of the store's absence is `null`.
  abbrev stage_metadata : String → Option (Object C) → Json
  stage_metadata id none = null
  stage_metadata id (some o) = meta o.content id

  unfoldable pub result_for_stage : StageResult → Option (Object C) → Json
  result_for_stage r o = obj (
      fields (
        ("id", str r.id)
        ∷ ("type", str r.name)
        ∷ ("success", bool r.success)
        ∷ ("error", r.error)
        ∷ ("output", str r.output)
        ∷ ("metadata", stage_metadata r.id o)
        ∷ []))

  unfoldable pub result_for_stages : List StageResult → Option (Object C) → Items
  unfolding result_for_stage
  result_for_stages [] o = nil
  result_for_stages (r ∷ rs) o = cons (result_for_stage r o) (result_for_stages rs o)

  abbrev stages_part : List StageResult → Option (Object C) → Dict Json
  stages_part [] o = []
  stages_part (r ∷ rs) o = ("stages", arr (result_for_stages (r ∷ rs) o)) ∷ []

  -- `store and pipeline.id and store.get(pipeline.id)`
  abbrev pub stored :
      Option String → Option (ObjectStore C) → Result (Option (Object C) × Option (ObjectStore C))
  stored id none = ok (none, none)
  stored id (some s) =
      if truthy_name id
      then (ObjectStore.get id s >>= λ res. ok (res.0, some res.1))
      else ok (none, some s)

  -- A result of a pipeline: whether it says success, and its JSON.
  abbrev pub PipelineOutput : Type 0
  PipelineOutput = Bool × Dict Json

  abbrev build_part : Option PipelineOutput → Dict Json
  build_part none = []
  build_part (some (success, build)) = ("build", obj (fields build)) ∷ []

  abbrev or_own : Bool → Option PipelineOutput → Bool
  or_own own none = own
  or_own own (some (success, build)) = success

  abbrev pipeline_part : Option PipelineOutput → PipelineResult → Option (Object C) → PipelineOutput
  pipeline_part build current o =
      let success = or_own current.success build in
      (success, ("success", bool success) ∷ (build_part build ++ stages_part current.stages o))

  module _ (h : Digest) (m : Manifest) (results : Results) where
    -- The end of `result_for_pipeline`, once the build pipeline has its result.
    unfoldable pub after_build :
        Pipeline
        → Option PipelineOutput
        → Option (ObjectStore C)
        → Result (PipelineOutput × Option (ObjectStore C))
    unfolding result_for_stages
    after_build pl build s =
        let current = or_empty_result (find_result (pipeline_id h pl) results) in
        stored (pipeline_id h pl) s >>= λ res. ok (pipeline_part build current res.0, res.1)

    abbrev pub with_build :
        Pipeline
        → Option (Result (PipelineOutput × Option (ObjectStore C)))
        → Option (Result (PipelineOutput × Option (ObjectStore C)))
    with_build pl none = none
    with_build pl (some (err e)) = some (err e)
    with_build pl (some (ok (build, s))) = some (after_build pl (some build) s)

    -- `none` where the fuel runs out, which Python meets as an endless recursion.
    unfoldable pub result_for_pipeline :
        ℕ
        → Pipeline
        → Option (ObjectStore C)
        → Option (Result (PipelineOutput × Option (ObjectStore C)))
    unfolding after_build
    result_for_pipeline zero pl s = none
    result_for_pipeline (suc n) pl s = elim (truthy_name pl.build) [
      | false ↦ some (after_build pl none s)
      | true ↦ elim (get_item h m pl.build) [
        | err e ↦ some (err e)
        | ok build ↦ with_build pl (result_for_pipeline n build s)
      ]
    ]

    abbrev first_stage : List StageResult → Result StageResult
    first_stage [] = err index_error
    first_stage (r ∷ rs) = ok r

    abbrev get_object :
        Option String → Option (ObjectStore C) → Result (Option (Object C) × Option (ObjectStore C))
    get_object id none = ok (none, none)
    get_object id (some s) = ObjectStore.get id s >>= λ res. ok (res.0, some res.1)

    -- The result with the part of the assembler in it.
    unfoldable pub add_assembler :
        Option Pipeline
        → PipelineOutput × Option (ObjectStore C)
        → Result (Dict Json × Option (ObjectStore C))
    unfolding result_for_stage
    add_assembler none (out, s) = ok (out.1, s)
    add_assembler (some pl) (out, s) = elim (find_result (pipeline_id h pl) results) [
      | none ↦ ok (out.1, s)
      | some current ↦ do
        (o, s') ← get_object (pipeline_id h pl) s
        stage ← first_stage current.stages
        let result = Dict.put "assembler" (result_for_stage stage o) out.1
        ok (if stage.success then result else Dict.put "success" (bool false) result, s')
    ]

    abbrev tree_output :
        Result Pipeline
        → Option (ObjectStore C)
        → Option (Result (PipelineOutput × Option (ObjectStore C)))
    tree_output (err e) s = some (err e)
    tree_output (ok tree) s = result_for_pipeline (suc (length m.pipelines)) tree s

    unfoldable pub output :
        Option (ObjectStore C) → Option (Result (Dict Json × Option (ObjectStore C)))
    unfolding result_for_pipeline add_assembler
    output s = elim (tree_output (get_item h m (some "tree")) s) [
      | none ↦ none
      | some r ↦ some (r >>= add_assembler (Manifest.get h m (some "assembler")))
    ]

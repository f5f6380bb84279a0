-- ===== src/Formats/V1/Describe/Nesting.antt =====
-- osbuild/formats/v1.py: the nested description of a pipeline and its build pipelines.
use osbuild.Prelude.{
  ℕ, zero, suc, ◌<◌, Bool, true, false, Option, none, some, if◌then◌else◌, Bool-cases, inl, inr,
  List, [], ◌∷◌, ◌++◌, length, ok, ◌≡◌, refl, truthy_name, arith,
}
use osbuild.Prelude.Dict.{Dict}
use osbuild.Json.{Json, str, arr, obj, Items, nil, cons, Fields, fields, truthy}
use osbuild.Json.Reads.{find}
use osbuild.Digest.{Digest}
use osbuild.Stage.{stage_id}
use osbuild.Objects.{Stage, Pipeline, Manifest}
use osbuild.Manifest.{get_item}
use osbuild.Formats.V1.Describe.{
  describe_stage, describe_stages, stages_part, build_part, describe_pipeline,
}

-- A pipeline, its build pipeline, the build pipeline of that, and so on.
pub data BuildChain (h : Digest) (m : Manifest) : List Pipeline → Type 0 where
  last : (pl : Pipeline) → truthy_name pl.build ≡ false → BuildChain h m (pl ∷ [])
  more :
      (pl build : Pipeline) (rest : List Pipeline)
      → truthy_name pl.build ≡ true
      → get_item h m pl.build ≡ ok build
      → BuildChain h m (build ∷ rest)
      → BuildChain h m (pl ∷ build ∷ rest)

module _ (h : Digest) (m : Manifest) (with_id : Bool) where
  -- A stage by its name, its options if they count as true, and its id if it is asked for.
  abbrev DescribesStage : Stage → Json → Type 0
  DescribesStage s j =
      (fs : Fields) × (j ≡ obj fs)
      × (find "name" fs ≡ some (str s.info_name))
      × (find "options" fs ≡ (if truthy s.options then some s.options else none))
      × (find "id" fs ≡ (if with_id then some (str (stage_id h s)) else none))

  abbrev DescribesEach : List Stage → Items → Type 0
  DescribesEach [] nil = Unit
  DescribesEach [] (cons j js) = ⊥
  DescribesEach (s ∷ rest) nil = ⊥
  DescribesEach (s ∷ rest) (cons j js) = DescribesStage s j × DescribesEach rest js

  abbrev DescribesStages : List Stage → Option Json → Type 0
  DescribesStages [] found = found ≡ none
  DescribesStages (s ∷ rest) found =
      (js : Items) × (found ≡ some (arr js)) × DescribesEach (s ∷ rest) js

  -- Pipelines that are built one in the other, the first one outermost: under "build" the pipeline that
  -- builds it and its runner, and under "stages" its stages.
  abbrev pub Describes : List Pipeline → Fields → Type 0
  Describes [] fs = ⊥
  Describes (pl ∷ []) fs = (find "build" fs ≡ none) × DescribesStages pl.stages (find "stages" fs)
  Describes (pl ∷ build ∷ rest) fs =
      ((made : Fields) × (inner : Fields) × (find "build" fs ≡ some (obj made))
        × (find "runner" made ≡ some (str pl.runner.name))
        × (find "pipeline" made ≡ some (obj inner))
        × Describes (build ∷ rest) inner)
      × DescribesStages pl.stages (find "stages" fs)

  describe_stage-DescribesStage : (s : Stage) → DescribesStage s (describe_stage h with_id s)
  unfolding describe_stage find
  describe_stage-DescribesStage s = elim (Bool-cases (truthy s.options)) [
    | inl given ↦ elim (Bool-cases with_id) [
      | inl asked ↦ rw (given, asked) (_, refl, refl, refl, refl)
      | inr plain ↦ rw (given, plain) (_, refl, refl, refl, refl)
    ]
    | inr empty ↦ elim (Bool-cases with_id) [
      | inl asked ↦ rw (empty, asked) (_, refl, refl, refl, refl)
      | inr plain ↦ rw (empty, plain) (_, refl, refl, refl, refl)
    ]
  ]

  describe_stages-DescribesEach :
      (stages : List Stage) → DescribesEach stages (describe_stages h with_id stages)
  unfolding describe_stages
  describe_stages-DescribesEach [] = tt
  describe_stages-DescribesEach (s ∷ rest) =
      (describe_stage-DescribesStage s, describe_stages-DescribesEach rest)

  stages_part-DescribesStages :
      (stages : List Stage)
      → (find "build" (fields (stages_part h with_id stages)) ≡ none)
        × DescribesStages stages (find "stages" (fields (stages_part h with_id stages)))
  unfolding find
  stages_part-DescribesStages [] = (refl, refl)
  stages_part-DescribesStages (s ∷ rest) =
      (refl, (_, refl, describe_stages-DescribesEach (s ∷ rest)))

  -- With fuel for all its build pipelines, `describe_pipeline` raises nothing for a pipeline whose build
  -- pipelines are in the manifest, and describes them one in the other: each with the one that builds it
  -- and the name of its runner, and with its stages in their order, a stage with its name, its options
  -- if they count as true, and its id if it is asked for.
  pub describe_pipeline-BuildChain :
      {pl : Pipeline} {rest : List Pipeline} (n : ℕ)
      → BuildChain h m (pl ∷ rest)
      → length rest < n
      → (d : Dict Json) × (describe_pipeline h with_id m n pl ≡ some (ok d))
        × Describes (pl ∷ rest) (fields d)
  unfolding describe_pipeline find
  describe_pipeline-BuildChain zero chain enough = absurd (omega arith)
  describe_pipeline-BuildChain (suc n) (last pl alone) enough = (
    stages_part h with_id pl.stages,
    rw (alone, describe_pipeline) refl,
    stages_part-DescribesStages pl.stages,
  )
  describe_pipeline-BuildChain (suc n) (more pl build rest nested found chain) enough =
      let (inner, described, reads) = describe_pipeline-BuildChain n chain (omega arith) in
      (
        build_part h with_id pl inner ++ stages_part h with_id pl.stages,
        rw (nested, found, described, describe_pipeline) refl,
        ((_, fields inner, refl, refl, refl, reads), (stages_part-DescribesStages pl.stages).1),
      )

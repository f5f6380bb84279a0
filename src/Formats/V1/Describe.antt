-- ===== src/Formats/V1/Describe.antt =====
-- osbuild/formats/v1.py: `describe`, a manifest as JSON. As in Output, the recursion over build
-- pipelines has fuel.
pub mod Nesting
use osbuild.Prelude.{
  ℕ, zero, suc, String, ◌==◌, Bool, true, false, Option, none, some, List, [], ◌∷◌, ◌++◌, length,
  if◌then◌else◌, truthy_name, Result, ok, err, ◌>>=◌, index_error,
}
use osbuild.Prelude.Dict
use osbuild.Prelude.Dict.{Dict}
use osbuild.Json.{Json, str, arr, obj, Items, nil, cons, fields, when_truthy}
use osbuild.Digest.{Digest}
use osbuild.Objects.{Stage, Pipeline, Source, Manifest}
use osbuild.Stage.{stage_id}
use osbuild.Manifest
use osbuild.Manifest.{get_item}

unfoldable pub get_source_name : Source → String
get_source_name source =
    if source.info_name == "org.osbuild.curl" then "org.osbuild.files" else source.info_name

describe_sources : List Source → Dict Json → Dict Json
unfolding get_source_name
describe_sources [] d = d
describe_sources (s ∷ rest) d = describe_sources rest (Dict.put (get_source_name s) s.options d)

abbrev sources_part : Dict Json → Dict Json
sources_part [] = []
sources_part (entry ∷ d) = ("sources", obj (fields (entry ∷ d))) ∷ []

module _ (h : Digest) (with_id : Bool) where
  unfoldable pub describe_stage : Stage → Json
  describe_stage s = obj (
      fields (
        ("name", str s.info_name)
        ∷ (when_truthy "options" s.options
            ++ (if with_id then ("id", str (stage_id h s)) ∷ [] else []))))

  unfoldable pub describe_stages : List Stage → Items
  unfolding describe_stage
  describe_stages [] = nil
  describe_stages (s ∷ rest) = cons (describe_stage s) (describe_stages rest)

  abbrev pub stages_part : List Stage → Dict Json
  stages_part [] = []
  stages_part (s ∷ rest) = ("stages", arr (describe_stages (s ∷ rest))) ∷ []

  abbrev pub build_part : Pipeline → Dict Json → Dict Json
  build_part pl build =
      (
        "build",
        obj (fields (("pipeline", obj (fields build)) ∷ ("runner", str pl.runner.name) ∷ [])),
      )
      ∷ []

  abbrev pub with_build : Pipeline → Option (Result (Dict Json)) → Option (Result (Dict Json))
  with_build pl none = none
  with_build pl (some (err e)) = some (err e)
  with_build pl (some (ok build)) = some (ok (build_part pl build ++ stages_part pl.stages))

  module _ (m : Manifest) where
    unfoldable pub describe_pipeline : ℕ → Pipeline → Option (Result (Dict Json))
    unfolding describe_stages
    describe_pipeline zero pl = none
    describe_pipeline (suc n) pl = elim (truthy_name pl.build) [
      | false ↦ some (ok (stages_part pl.stages))
      | true ↦ elim (get_item h m pl.build) [
        | err e ↦ some (err e)
        | ok build ↦ with_build pl (describe_pipeline n build)
      ]
    ]

    abbrev assembler_stage : List Stage → Result (Dict Json)
    assembler_stage [] = err index_error
    assembler_stage (s ∷ rest) = ok (("assembler", describe_stage s) ∷ [])

    abbrev assembler_part : Option Pipeline → Result (Dict Json)
    assembler_part none = ok []
    assembler_part (some assembler) = assembler_stage assembler.stages

    -- What is put around the description of the tree.
    unfoldable pub describe_rest : Dict Json → Result Json
    unfolding describe_sources
    describe_rest tree = do
      assembler ← assembler_part (Manifest.get h m (some "assembler"))
      ok (
          obj (
            fields (
              ("pipeline", obj (fields (tree ++ assembler)))
              ∷ sources_part (describe_sources m.sources []))))

    abbrev described : Option (Result (Dict Json)) → Option (Result Json)
    described none = none
    described (some r) = some (r >>= describe_rest)

    abbrev tree_description : Result Pipeline → Option (Result (Dict Json))
    tree_description (err e) = some (err e)
    tree_description (ok tree) = describe_pipeline (suc (length m.pipelines)) tree

    unfoldable pub describe : Option (Result Json)
    unfolding describe_pipeline describe_rest
    describe = described (tree_description (get_item h m (some "tree")))

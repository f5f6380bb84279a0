-- ===== src/Tests/FirstFormat.antt =====
-- Runs of osbuild/formats/v1.py: a description with a build pipeline and an assembler, and the output
-- for a tree that failed in a build pipeline that did not.
use osbuild.Prelude.{
  ℕ, zero, String, true, false, [], ◌∷◌, ◌++◌, none, some, Result, ok, err, ◌≡◌, refl, arith,
}
use osbuild.Prelude.Dict
use osbuild.Prelude.Dict.{Dict}
use osbuild.Json.{fields, Json, null, bool, str, arr, obj, nil, cons, end, field}
use osbuild.Objects.{Manifest}
use osbuild.Manifest.{manifest_init, get_item}
use osbuild.Run.{Results}
use osbuild.Formats.V1.{PipelineDesc, on_host, on_build, Description, load}
use osbuild.Formats.V1.Names.{pipeline_names, assembler_names, load-pipeline_names}
use osbuild.Formats.V1.Describe.{describe_pipeline}
use osbuild.Formats.V1.Describe.Nesting.{last, more, Describes, describe_pipeline-BuildChain}
use osbuild.Formats.V1.Output.{result_for_pipeline}
use osbuild.Formats.V1.Output.Success.{no_build, built_in, Reflects, result_for_pipeline-Innermost}
use osbuild.Tests.Descriptions.{index}
use osbuild.Tests.Samples.{digest, manifest, build_pipeline, tree_pipeline}

abbrev packages : Json
packages = obj (
    field "packages"
      (arr (
        cons (str "sha256:a")
          (cons (obj (field "checksum" (str "sha256:b") (field "check_gpg" (bool true) end))) nil)))
      end)

abbrev description : Description
description = record {
  pipeline =
      on_build (on_host (record { name = "org.osbuild.rpm"; options = some packages } ∷ []) none)
        "org.osbuild.fedora38" (record { name = "org.osbuild.copy"; options = none } ∷ [])
        (some (record { name = "org.osbuild.tar"; options = none }));
  sources = ("org.osbuild.files", obj (field "urls" (obj end) end)) ∷ [];
}

abbrev or_empty_manifest : Result Manifest → Manifest
or_empty_manifest (ok m) = m
or_empty_manifest (err e) = manifest_init

abbrev loaded : Manifest
loaded = or_empty_manifest (load digest index description)

load_run : load digest index description ≡ ok loaded
unfolding load osbuild.Manifest.add_pipeline Dict.has osbuild.Formats.V1.load_stages
    osbuild.Formats.V1.load_stage osbuild.Pipeline.add_stage osbuild.Stage.stage_init
    osbuild.Json.Reads.item osbuild.Json.Reads.elements Dict.put osbuild.Formats.V1.pipeline_name
    get_item Dict.get osbuild.Formats.V1.load_source
load_run = refl

load-pipeline_names_example :
    Dict.keys loaded.pipelines
    ≡ pipeline_names description.pipeline 0
      ++ assembler_names (some (record { name = "org.osbuild.tar"; options = none }))
load-pipeline_names_example = load-pipeline_names digest index description loaded load_run

abbrev results : Results
results =
    (some "org.osbuild.rpm", record { name = "build"; success = true; stages = [] })
    ∷ (some "org.osbuild.hostname", record { name = "tree"; success = false; stages = [] })
    ∷ []

abbrev no_metadata : ℕ → String → Json
no_metadata content id = null

build_found : get_item digest manifest tree_pipeline.build ≡ ok build_pipeline
unfolding get_item Dict.get Dict.values osbuild.Pipeline.pipeline_id osbuild.Stage.stage_id
build_found = refl

result_for_pipeline-Innermost_example :
    Reflects no_metadata digest manifest results build_pipeline
      (result_for_pipeline no_metadata digest manifest results 3 tree_pipeline none)
result_for_pipeline-Innermost_example =
    result_for_pipeline-Innermost no_metadata digest manifest results 3 none
      (built_in zero tree_pipeline build_pipeline build_pipeline refl build_found
        (no_build build_pipeline refl))
      (omega arith)

describe_pipeline-BuildChain_example :
    (d : Dict Json) × (describe_pipeline digest false manifest 3 tree_pipeline ≡ some (ok d))
    × Describes digest manifest false (tree_pipeline ∷ build_pipeline ∷ []) (fields d)
describe_pipeline-BuildChain_example =
    describe_pipeline-BuildChain digest manifest false 3
      (more tree_pipeline build_pipeline [] refl build_found (last build_pipeline refl))
      (omega arith)

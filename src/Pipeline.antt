-- ===== src/Pipeline.antt =====
-- osbuild/pipeline.py, class Pipeline: the constructor, the id and `add_stage`.
use osbuild.Prelude.{ℕ, String, Option, none, some, List, [], ◌∷◌, ◌++◌}
use osbuild.Json.{Json, or_empty}
use osbuild.Digest.{Digest}
use osbuild.Objects.{ModuleInfo, Stage, Runner, Pipeline}
use osbuild.Stage.{stage_init, stage_id}

unfoldable pub pipeline_init : String → Runner → Option String → Option ℕ → Pipeline
pipeline_init name runner build source_epoch = record {
  name = name;
  build = build;
  runner = runner;
  stages = [];
  assembler = none;
  source_epoch = source_epoch;
}

-- The id of the last stage of a list, if it has one.
unfoldable pub last_id : Digest → List Stage → Option String
last_id h [] = none
last_id h (s ∷ []) = some (stage_id h s)
last_id h (s ∷ t ∷ rest) = last_id h (t ∷ rest)

unfoldable pub pipeline_id : Digest → Pipeline → Option String
unfolding last_id
pipeline_id h pl = last_id h pl.stages

abbrev rebase : Option Stage → String → Option Stage
rebase none id = none
rebase (some a) id = some (record a { base = some id })

unfoldable pub add_stage : Digest → ModuleInfo → Json → Json → Pipeline → Pipeline × Stage
unfolding pipeline_id
add_stage h info options sources_options pl =
    let stage =
      stage_init info sources_options pl.build (pipeline_id h pl) (or_empty options)
        pl.source_epoch in
    (
      record pl {
        stages = pl.stages ++ stage ∷ [];
        assembler = rebase pl.assembler (stage_id h stage);
      },
      stage,
    )

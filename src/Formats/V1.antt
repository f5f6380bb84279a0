-- ===== src/Formats/V1.antt =====
-- osbuild/formats/v1.py: the first version of the manifest description, and how it is loaded. As in
-- V2, the description is as the schema lets it through, and an empty object under `pipeline` or
-- `build` is one that is missing.
pub mod Describe
pub mod Names
pub mod Output
use Prim.Native.String
use Prim.Native.String.{[], ◌∷◌}
use osbuild.Prelude.{
  ℕ, zero, suc, String, ◌==◌, Option, none, some, List, [], ◌∷◌, ◌++◌, map, if◌then◌else◌, Result,
  ok, err, value_error, type_error, attribute_error, ◌>>=◌,
}
use osbuild.Prelude.Dict
use osbuild.Prelude.Dict.{Dict}
use osbuild.Json.{
  Json, null, bool, num, number, str, arr, obj, Items, nil, cons, Fields, end, field, fields,
  truthy,
}
use osbuild.Json.Reads.{item, get_or, elements, entries}
use osbuild.Digest.{Digest}
use osbuild.Objects.{
  ModuleInfo, Input, Stage, Runner, Pipeline, Manifest, input_init, add_reference,
}
use osbuild.Pipeline.{pipeline_id, pipeline_init, add_stage}
use osbuild.Manifest.{manifest_init, get_item, add_pipeline, add_source}
use osbuild.Formats.V2.Refs.{options_or}
use osbuild.Formats.V2.Load.{Index, need_info, runner_init}

pub record StageDesc : Type 0 where
  pub name : String
  pub options : Option Json

-- A pipeline with its stages and assembler: run on the host, with a named runner, or with a named
-- runner in the tree of a nested build pipeline.
pub data PipelineDesc : Type 0 where
  on_host : List StageDesc → Option StageDesc → PipelineDesc
  on_runner : String → List StageDesc → Option StageDesc → PipelineDesc
  on_build : PipelineDesc → String → List StageDesc → Option StageDesc → PipelineDesc

pub record Description : Type 0 where
  pub pipeline : PipelineDesc
  pub sources : Dict Json

abbrev pub assembler_of : PipelineDesc → Option StageDesc
assembler_of (on_host stages assembler) = assembler
assembler_of (on_runner runner stages assembler) = assembler
assembler_of (on_build build runner stages assembler) = assembler

-- The key of a reference. A number or a Boolean, which the schema of the stage refuses, is refused.
abbrev ref_key : Json → Result (Option String)
ref_key (str s) = ok (some s)
ref_key null = ok none
ref_key j = err type_error

abbrev gpg_options : Json → Json
gpg_options gpg =
    if truthy gpg then obj (field "metadata" (obj (field "rpm.check_gpg" gpg end)) end) else null

-- One round of the loop over the packages: the checksum and the options.
unfoldable pub package_ref : Json → Result (Json × Json)
package_ref (obj fs) =
    item "checksum" (obj fs) >>= λ sum. ok (sum, gpg_options (get_or "check_gpg" null (obj fs)))
package_ref pkg = ok (pkg, null)

abbrev ref_options : Json → Json
ref_options ref = if truthy ref then obj (field "ref" ref end) else null

-- The items of a source, which the schema lets through as an object only.
abbrev dict_of : Json → Result (Dict Json)
dict_of (obj fs) = ok (entries fs)
dict_of j = err type_error

unfoldable pub source_type : String → String
source_type name = if name == "org.osbuild.files" then "org.osbuild.curl" else name

unfoldable pub items_key : String → Result String
items_key name =
    if name == "org.osbuild.curl"
    then ok "urls"
    else if name == "org.osbuild.ostree"
    then ok "commits"
    else if name == "org.osbuild.librepo"
    then ok "items"
    else err value_error

-- `"-".join(["build"] * n)`
unfoldable pub builds : ℕ → String
builds zero = ""
builds (suc zero) = "build"
builds (suc (suc n)) = String.◌++◌ "build-" (builds (suc n))

unfoldable pub pipeline_name : ℕ → String
unfolding builds
pipeline_name zero = "tree"
pipeline_name (suc n) = builds (suc n)

module _ (h : Digest) (index : Index) where
  unfoldable pub add_packages : Items → Input → Result Input
  unfolding package_ref
  add_packages nil ip = ok ip
  add_packages (cons pkg rest) ip = do
    found ← package_ref pkg
    key ← ref_key found.0
    add_packages rest (add_reference h key found.1 ip)

  abbrev put_input : String → Input → Stage → Stage
  put_input name ip stage = record stage { inputs = Dict.put name ip stage.inputs }

  unfoldable pub load_rpm : Stage → Result Stage
  unfolding add_packages
  load_rpm stage = do
    info ← need_info (index.module_info "Input" "org.osbuild.files")
    listed ← item "packages" stage.options
    packages ← elements listed
    ip ← add_packages packages (input_init h "packages" info "org.osbuild.source" null)
    ok (put_input "packages" ip stage)

  unfoldable pub load_ostree : Json → Stage → Result Stage
  load_ostree opts stage = do
    info ← need_info (index.module_info "Input" "org.osbuild.ostree")
    commit ← item "commit" opts
    key ← ref_key commit
    let ip = input_init h "commits" info "org.osbuild.source" null
    ok (put_input "commits" (add_reference h key (ref_options (get_or "ref" null opts)) ip) stage)

  abbrev stage_inputs : Json → Stage → Result Stage
  stage_inputs opts stage =
      if stage.info_name == "org.osbuild.rpm"
      then load_rpm stage
      else if stage.info_name == "org.osbuild.ostree"
      then load_ostree opts stage
      else ok stage

  unfoldable pub load_stage : StageDesc → Pipeline → Result Pipeline
  unfolding load_rpm load_ostree
  load_stage desc pl = do
    info ← need_info (index.module_info "Stage" desc.name)
    stage ←
        stage_inputs (options_or desc.options)
          (add_stage h info (options_or desc.options) null pl).1
    ok (record pl { stages = pl.stages ++ stage ∷ [] })

  unfoldable pub load_stages : List StageDesc → Pipeline → Result Pipeline
  load_stages [] pl = ok pl
  load_stages (desc ∷ rest) pl = load_stage desc pl >>= λ pl'. load_stages rest pl'

  -- The end of `load_pipeline`: the pipeline is added, and its stages are loaded into it.
  unfoldable pub fill_pipeline :
      String → Runner → Option String → List StageDesc → Manifest → Result (Pipeline × Manifest)
  fill_pipeline name runner build stages m = do
    m' ← add_pipeline name runner build none m
    pl ← load_stages stages (pipeline_init name runner build none)
    ok (pl, record m' { pipelines = Dict.put name pl m'.pipelines })

  -- `load_build` gives the build pipeline and the runner, and `load_pipeline` goes on with them.
  unfoldable pub load_pipeline : PipelineDesc → ℕ → Manifest → Result (Pipeline × Manifest)
  unfolding fill_pipeline
  load_pipeline (on_host stages assembler) n m = do
    path ← index.detect_host_runner
    fill_pipeline (pipeline_name n) (runner_init index path none) none stages m
  load_pipeline (on_runner runner stages assembler) n m = do
    path ← index.detect_runner runner
    fill_pipeline (pipeline_name n) (runner_init index path (some runner)) none stages m
  load_pipeline (on_build build runner stages assembler) n m = do
    nested ← load_pipeline build (suc n) m
    path ← index.detect_runner runner
    fill_pipeline (pipeline_name n) (runner_init index path (some runner)) (pipeline_id h nested.0)
        stages nested.1

  abbrev pub assembler_pipeline : Pipeline → Pipeline
  assembler_pipeline tree = pipeline_init "assembler" tree.runner tree.build none

  -- The stage of the assembler, with the tree as its input.
  unfoldable pub assembler_stage : StageDesc → Pipeline → Result Stage
  assembler_stage desc tree = do
    info ← need_info (index.module_info "Assembler" desc.name)
    input_info ← need_info (index.module_info "Input" "org.osbuild.tree")
    let stage = (add_stage h info (options_or desc.options) (obj end) (assembler_pipeline tree)).1
    let ip = input_init h "tree" input_info "org.osbuild.pipeline" null
    ok (put_input "tree" (add_reference h (pipeline_id h tree) null ip) stage)

  abbrev pub put_assembler : Pipeline → Stage → Manifest → Manifest
  put_assembler tree stage m = record m {
    pipelines =
        Dict.put "assembler" (record (assembler_pipeline tree) { stages = stage ∷ [] }) m.pipelines;
  }

  unfoldable pub load_assembler : StageDesc → Manifest → Result Manifest
  unfolding assembler_stage
  load_assembler desc m = do
    tree ← get_item h m (some "tree")
    m' ← add_pipeline "assembler" tree.runner tree.build none m
    stage ← assembler_stage desc tree
    ok (put_assembler tree stage m')

  unfoldable pub load_source : String → Json → Manifest → Result Manifest
  unfolding source_type items_key
  load_source name desc m = do
    key ← items_key (source_type name)
    listed ← item key desc
    items ← dict_of listed
    info ← need_info (index.module_info "Source" (source_type name))
    ok (add_source info items desc m)

  unfoldable pub load_sources : Dict Json → Manifest → Result Manifest
  load_sources [] m = ok m
  load_sources ((name, desc) ∷ rest) m = load_source name desc m >>= λ m'. load_sources rest m'

  abbrev pub load_if : Option StageDesc → Manifest → Result Manifest
  load_if none m = ok m
  load_if (some desc) m = load_assembler desc m

  abbrev give_sources : Json → Pipeline → Pipeline
  give_sources sources pl = record pl {
    stages = map (λ (s : Stage). record s { sources = sources }) pl.stages;
  }

  unfoldable pub share_sources : Json → Dict Pipeline → Dict Pipeline
  share_sources sources [] = []
  share_sources sources ((name, pl) ∷ rest) =
      (name, give_sources sources pl) ∷ share_sources sources rest

  unfoldable pub load : Description → Result Manifest
  unfolding load_pipeline load_assembler load_sources share_sources
  load desc = do
    loaded ← load_pipeline desc.pipeline 0 manifest_init
    assembled ← load_if (assembler_of desc.pipeline) loaded.1
    m ← load_sources desc.sources assembled
    ok (record m { pipelines = share_sources (obj (fields desc.sources)) m.pipelines })

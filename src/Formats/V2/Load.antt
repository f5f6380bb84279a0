-- ===== src/Formats/V2/Load.antt =====
-- osbuild/formats/v2.py: `load` and the functions that it calls.
pub mod Bases
pub mod Chains
pub mod Names
use text.Mathlib.Text.{starts_with}
use osbuild.Prelude.{
  String, Option, none, some, List, [], ◌∷◌, ◌++◌, if◌then◌else◌, truthy_text, truthy_name, opt_eq,
  Result, ok, err, value_error, type_error, key_error, attribute_error, ◌>>=◌,
}
use osbuild.Prelude.Dict
use osbuild.Prelude.Dict.{Dict}
use osbuild.Json.{Json, null}
use osbuild.Digest.{Digest}
use osbuild.Objects.{
  ModuleInfo, ParentDevice, Device, Stage, Runner, Pipeline, Manifest, input_init,
}
use osbuild.Stage.{add_device, add_mount}
use osbuild.Pipeline.{pipeline_id, pipeline_init, add_stage}
use osbuild.Manifest.{manifest_init, add_metadata, add_pipeline, add_source}
use osbuild.Formats.V2.{
  DeviceDesc, InputDesc, MountDesc, StageDesc, PipelineDesc, SourceDesc, Description,
}
use osbuild.Formats.V2.Refs.{options_or, read_refs, resolve_ref, resolve_origin, add_references}
use osbuild.Formats.V2.Devices.{sort_devices}

-- What the loader asks `meta.Index`, which reads it from disk: the information on a module by its
-- class and name, and the path of the runner for a name and for the host. `basename` is
-- `os.path.basename`.
pub record Index : Type 0 where
  pub module_info : String → String → Option ModuleInfo
  pub detect_runner : String → Result String
  pub detect_host_runner : Result String
  pub basename : String → String

-- An attribute of `None` is asked for.
abbrev pub need_info : Option ModuleInfo → Result ModuleInfo
need_info none = err attribute_error
need_info (some info) = ok info

unfoldable pub runner_init : Index → String → Option String → Runner
runner_init index path none = record { info_path = path; name = index.basename path }
runner_init index path (some name) = record {
  info_path = path;
  name = if truthy_text name then name else index.basename path;
}

-- `dict`'s rule that a later value of a key counts.
abbrev or_else : Option Runner → Option Runner → Option Runner
or_else (some r) other = some r
or_else none other = other

module _ (h : Digest) where
  -- The parent of a device, as the stage has it by now.
  parent_of : Stage → Option String → Option ParentDevice
  parent_of s none = none
  parent_of s (some parent) =
      if truthy_text parent
      then elim (Dict.get parent s.devices) [
        | none ↦ none
        | some d ↦ some (record { name = d.name; id = d.id })
      ]
      else none

  unfoldable pub load_device : Index → String → DeviceDesc → Stage → Result Stage
  unfolding parent_of
  load_device index name desc s = elim (index.module_info "Device" desc.kind) [
    | none ↦ err type_error
    | some info ↦ ok (add_device h name info (parent_of s desc.parent) (options_or desc.options) s)
  ]

  unfoldable pub load_devices : Index → Dict DeviceDesc → Stage → Result Stage
  load_devices index [] s = ok s
  load_devices index ((name, desc) ∷ rest) s =
      load_device index name desc s >>= λ s'. load_devices index rest s'

  -- `place s` is the manifest with the stage as it is now: a reference is resolved in the manifest
  -- that this stage stands in already.
  unfoldable pub load_input :
      Index → String → InputDesc → (Stage → Manifest) → List String → Stage → Result Stage
  load_input index name desc place source_refs s = do
    info ← need_info (index.module_info "Input" desc.kind)
    let ip = input_init h name info desc.origin (options_or desc.options)
    let s' : Stage = record s { inputs = Dict.put name ip s.inputs }
    refs ← read_refs desc.references
    resolved ← resolve_origin h desc.origin (place s') source_refs refs
    ok (record s { inputs = Dict.put name (add_references h resolved ip) s.inputs })

  unfoldable pub load_inputs :
      Index → Dict InputDesc → (Stage → Manifest) → List String → Stage → Result Stage
  load_inputs index [] place source_refs s = ok s
  load_inputs index ((name, desc) ∷ rest) place source_refs s =
      load_input index name desc place source_refs s >>= λ s'.
      load_inputs index rest place source_refs s'

  -- The device of a mount; a source that is no device of the stage is refused.
  mount_device : Stage → Option String → Result (Option Device)
  mount_device s none = ok none
  mount_device s (some source) =
      if truthy_text source
      then elim (Dict.get source s.devices) [ none ↦ err value_error | some d ↦ ok (some d) ]
      else ok none

  unfoldable pub load_mount : Index → MountDesc → Stage → Result Stage
  unfolding mount_device
  load_mount index desc s = if Dict.has desc.name s.mounts then err value_error else do
    device ← mount_device s desc.source
    info ← need_info (index.module_info "Mount" desc.kind)
    ok (add_mount h desc.name info device desc.partition desc.target (options_or desc.options) s)

  unfoldable pub load_mounts : Index → List MountDesc → Stage → Result Stage
  load_mounts index [] s = ok s
  load_mounts index (desc ∷ rest) s = load_mount index desc s >>= λ s'. load_mounts index rest s'

  load_devices_of : Index → Dict DeviceDesc → Stage → Result Stage
  unfolding load_devices
  load_devices_of index devices s = elim (sort_devices devices) [
    | none ↦ err value_error
    | some sorted ↦ sorted >>= λ devs. load_devices index devs s
  ]

  -- The stage that `add_stage` appended, once its devices, inputs and mounts are loaded. The pipeline
  -- is the last one that the manifest has under its name.
  unfoldable pub load_stage :
      Index → StageDesc → Manifest → List String → Pipeline → Result Pipeline
  unfolding load_devices_of
  load_stage index desc m source_refs pl = do
    info ← need_info (index.module_info "Stage" desc.kind)
    let place = λ (s : Stage). record m {
      pipelines = Dict.put pl.name (record pl { stages = pl.stages ++ s ∷ [] }) m.pipelines;
    }
    let stage = (add_stage h info (options_or desc.options) null pl).1
    with_devices ← load_devices_of index desc.devices stage
    with_inputs ← load_inputs index desc.inputs place source_refs with_devices
    with_mounts ← load_mounts index desc.mounts with_inputs
    ok (record pl { stages = pl.stages ++ with_mounts ∷ [] })

  unfoldable pub load_stages :
      Index → List StageDesc → Manifest → List String → Pipeline → Result Pipeline
  load_stages index [] m source_refs pl = ok pl
  load_stages index (desc ∷ rest) m source_refs pl =
      load_stage index desc m source_refs pl >>= λ pl'. load_stages index rest m source_refs pl'

  resolve_build : Option String → Manifest → Result (Option String)
  resolve_build none m = ok none
  resolve_build (some build) m =
      if starts_with build "name:" then resolve_ref h build m else ok (some build)

  load_runner : Index → Option String → Result Runner
  load_runner index none = index.detect_host_runner >>= λ path. ok (runner_init index path none)
  load_runner index (some name) =
      if truthy_text name
      then index.detect_runner name >>= (λ path. ok (runner_init index path (some name)))
      else index.detect_host_runner >>= (λ path. ok (runner_init index path none))

  unfoldable pub load_pipeline : Index → PipelineDesc → List String → Manifest → Result Manifest
  unfolding resolve_build load_runner
  load_pipeline index desc source_refs m = do
    build ← resolve_build desc.build m
    runner ← load_runner index desc.runner
    m' ← add_pipeline desc.name runner build desc.source_epoch m
    pl ←
        load_stages index desc.stages m' source_refs
          (pipeline_init desc.name runner build desc.source_epoch)
    ok (record m' { pipelines = Dict.put desc.name pl m'.pipelines })

  unfoldable pub load_pipelines :
      Index → List PipelineDesc → List String → Manifest → Result Manifest
  load_pipelines index [] source_refs m = ok m
  load_pipelines index (desc ∷ rest) source_refs m =
      load_pipeline index desc source_refs m >>= λ m'. load_pipelines index rest source_refs m'

  pub load_metadata : Dict Json → Manifest → Manifest
  load_metadata [] m = m
  load_metadata ((k, v) ∷ d) m = load_metadata d (add_metadata k v m)

  pub load_sources : Index → Dict SourceDesc → Manifest → Result Manifest
  load_sources index [] m = ok m
  load_sources index ((name, desc) ∷ rest) m =
      need_info (index.module_info "Source" name) >>= λ info.
      load_sources index rest (add_source info desc.items (options_or desc.options) m)

  -- `source_refs`: the items of all sources.
  source_items : Dict SourceDesc → List String
  source_items [] = []
  source_items ((name, desc) ∷ rest) = Dict.keys desc.items ++ source_items rest

  -- `{pl.id: pl.runner for pl in pipelines}`, where the last pipeline with an id counts.
  runner_of : Option String → List Pipeline → Option Runner
  runner_of id [] = none
  runner_of id (pl ∷ pls) =
      or_else (runner_of id pls) (if opt_eq (pipeline_id h pl) id then some pl.runner else none)

  -- A pipeline runs with the runner of its build pipeline, and with the host's if it has none.
  fix_runners : Runner → List Pipeline → Dict Pipeline → Result (Dict Pipeline)
  unfolding runner_of
  fix_runners host_runner all [] = ok []
  fix_runners host_runner all ((name, pl) ∷ rest) =
      let runner = if truthy_name pl.build then runner_of pl.build all else some host_runner in
      let fixed = fix_runners host_runner all rest in
      elim runner [
        | none ↦ err key_error
        | some r ↦ fixed >>= λ rest'. ok ((name, record pl { runner = r }) ∷ rest')
      ]

  unfoldable pub load : Description → Index → Result Manifest
  unfolding load_metadata load_sources source_items fix_runners
  load description index = do
    with_sources ←
        load_sources index description.sources (load_metadata description.metadata manifest_init)
    m ← load_pipelines index description.pipelines (source_items description.sources) with_sources
    path ← index.detect_host_runner
    pipelines ← fix_runners (runner_init index path none) (Dict.values m.pipelines) m.pipelines
    ok (record m { pipelines = pipelines })

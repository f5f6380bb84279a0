-- ===== src/Formats/V2/Describe.antt =====
-- osbuild/formats/v2.py: `describe`, a manifest as JSON.
pub mod Reference
use Prim.Native.String
use osbuild.Prelude.{
  String, Bool, true, false, Option, none, some, List, [], ◌∷◌, ◌++◌, if◌then◌else◌, opt_eq,
  truthy_name, ◌==◌, Result, ok, err, ◌>>=◌,
}
use osbuild.Prelude.Dict
use osbuild.Prelude.Dict.{Dict}
use osbuild.Json.{
  when_truthy, Json, null, str, arr, obj, Items, nil, cons, fields, truthy, opt_text,
}
use osbuild.Digest.{Digest}
use osbuild.Objects.{
  Input, Device, Mount, Stage, Runner, Pipeline, Source, Manifest, Refs, put_ref, ref_fields,
}
use osbuild.Stage.{stage_id}
use osbuild.Pipeline.{pipeline_id}
use osbuild.Manifest.{get_item}

abbrev unless_empty : String → Dict Json → Dict Json
unless_empty key [] = []
unless_empty key (entry ∷ d) = (key, obj (fields (entry ∷ d))) ∷ []

abbrev listed : String → Items → Dict Json
listed key nil = []
listed key (cons j js) = (key, arr (cons j js)) ∷ []

unfoldable pub describe_device : Device → Json
describe_device dev = obj (fields (("type", str dev.info_name) ∷ when_truthy "options" dev.options))

describe_devices : Dict Device → Dict Json
unfolding describe_device
describe_devices [] = []
describe_devices ((name, dev) ∷ rest) = (name, describe_device dev) ∷ describe_devices rest

abbrev source_part : Option Device → Dict Json
source_part none = []
source_part (some dev) = ("source", str dev.name) ∷ []

unfoldable pub describe_mount : Mount → Json
describe_mount mnt = obj (
    fields (
      ("name", str mnt.name)
      ∷ ("type", str mnt.info_name)
      ∷ ("target", opt_text mnt.target)
      ∷ (source_part mnt.device
          ++ (when_truthy "options" mnt.options
              ++ when_truthy "partition" (opt_text mnt.partition)))))

describe_mounts : Dict Mount → Items
unfolding describe_mount
describe_mounts [] = nil
describe_mounts ((name, mnt) ∷ rest) = cons (describe_mount mnt) (describe_mounts rest)

describe_source : Source → Json
describe_source s = obj (fields (("items", obj (fields s.items)) ∷ []))

describe_sources : List Source → Dict Json → Dict Json
unfolding describe_source
describe_sources [] d = d
describe_sources (s ∷ rest) d = describe_sources rest (Dict.put s.info_name (describe_source s) d)

-- The runner under a build id, of the last pipeline with that build pipeline.
runner_for : Option String → List Pipeline → Option Runner
runner_for id [] = none
runner_for id (p ∷ ps) = elim (runner_for id ps) [
  | some r ↦ some r
  | none ↦ if truthy_name p.build then (if opt_eq p.build id then some p.runner else none) else none
]

abbrev runner_part : Option Runner → Dict Json
runner_part none = []
runner_part (some r) = ("runner", str r.name) ∷ []

module _ (h : Digest) (m : Manifest) (with_id : Bool) where
  unfoldable pub pipeline_ref : Option String → Result (Option String)
  pipeline_ref pid =
      if with_id
      then ok pid
      else (get_item h m pid >>= λ pl. ok (some (String.◌++◌ "name:" pl.name)))

  -- The key of a reference, which names a pipeline for the origin of pipelines.
  abbrev ref_name : String → Option String → Result (Option String)
  ref_name origin name = if origin == "org.osbuild.pipeline" then pipeline_ref name else ok name

  unfoldable pub describe_refs : String → Refs → Refs → Result Refs
  unfolding pipeline_ref
  describe_refs origin [] refs = ok refs
  describe_refs origin ((name, ref) ∷ rest) refs =
      ref_name origin name >>= λ named. describe_refs origin rest (put_ref named ref refs)

  abbrev refs_part : Refs → Dict Json
  refs_part [] = []
  refs_part (entry ∷ refs) = ("references", obj (ref_fields (entry ∷ refs))) ∷ []

  unfoldable pub describe_input : Input → Result Json
  unfolding describe_refs
  describe_input ip = do
    refs ← describe_refs ip.origin ip.refs []
    ok (
        obj (
          fields (
            ("type", str ip.info_name)
            ∷ ("origin", str ip.origin)
            ∷ (when_truthy "options" ip.options ++ refs_part refs))))

  describe_inputs : Dict Input → Result (Dict Json)
  unfolding describe_input
  describe_inputs [] = ok []
  describe_inputs ((name, ip) ∷ rest) = do
    j ← describe_input ip
    d ← describe_inputs rest
    ok ((name, j) ∷ d)

  abbrev id_part : Stage → Dict Json
  id_part s = if with_id then ("id", str (stage_id h s)) ∷ [] else []

  unfoldable pub describe_stage : Stage → Result Json
  unfolding describe_inputs describe_mounts describe_devices
  describe_stage s = do
    ips ← describe_inputs s.inputs
    ok (
        obj (
          fields (
            ("type", str s.info_name)
            ∷ (id_part s
                ++ (when_truthy "options" s.options
                    ++ (unless_empty "devices" (describe_devices s.devices)
                        ++ (listed "mounts" (describe_mounts s.mounts)
                            ++ unless_empty "inputs" ips)))))))

  describe_stages : List Stage → Result Items
  unfolding describe_stage
  describe_stages [] = ok nil
  describe_stages (s ∷ rest) = do j ← describe_stage s; js ← describe_stages rest; ok (cons j js)

  build_part : Option String → Result (Dict Json)
  unfolding pipeline_ref
  build_part build =
      if truthy_name build
      then (pipeline_ref build >>= λ ref. ok (("build", opt_text ref) ∷ []))
      else ok []

  unfoldable pub describe_pipeline : Pipeline → Result Json
  unfolding build_part runner_for describe_stages
  describe_pipeline p = do
    build ← build_part p.build
    stages ← describe_stages p.stages
    ok (
        obj (
          fields (
            ("name", str p.name)
            ∷ (build
                ++ (runner_part (runner_for (pipeline_id h p) (Dict.values m.pipelines))
                    ++ listed "stages" stages)))))

  describe_pipelines : List Pipeline → Result Items
  unfolding describe_pipeline
  describe_pipelines [] = ok nil
  describe_pipelines (p ∷ rest) = do
    j ← describe_pipeline p
    js ← describe_pipelines rest
    ok (cons j js)

  unfoldable pub describe : Result Json
  unfolding describe_pipelines describe_sources
  describe = do
    pipelines ← describe_pipelines (Dict.values m.pipelines)
    ok (
        obj (
          fields (
            ("version", str "2")
            ∷ ("pipelines", arr pipelines)
            ∷ (unless_empty "metadata" m.metadata
                ++ unless_empty "sources" (describe_sources m.sources [])))))

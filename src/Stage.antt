-- ===== src/Stage.antt =====
-- osbuild/pipeline.py, class Stage: the constructor, the id, the dependencies and the methods that
-- add inputs, devices and mounts. `run`, which starts the build root, is a parameter of `build_stages`.
use osbuild.Prelude.{
  ℕ, String, ◌==◌, false, Option, none, some, List, [], ◌∷◌, ◌++◌, map, if◌then◌else◌,
}
use osbuild.Prelude.Dict
use osbuild.Prelude.Dict.{Dict}
use osbuild.Json.{Json, num, str, arr, obj, texts, text_fields, opt_text}
use osbuild.Digest.{Digest}
use osbuild.Objects.{
  ModuleInfo, Input, ParentDevice, Device, Mount, Stage, ref_keys, input_init, device_init,
  mount_init,
}

unfoldable pub stage_init :
    ModuleInfo → Json → Option String → Option String → Json → Option ℕ → Stage
stage_init info source_options build base options source_epoch = record {
  info_name = info.name;
  info_path = info.path;
  info_caps = info.caps;
  sources = source_options;
  build = build;
  base = base;
  options = options;
  source_epoch = source_epoch;
  checkpoint = false;
  inputs = [];
  devices = [];
  mounts = [];
}

-- `{n: i.id for n, i in self.inputs.items()}`
abbrev pub input_ids : Dict Input → List (String × String)
input_ids [] = []
input_ids ((n, i) ∷ d) = (n, i.id) ∷ input_ids d

abbrev pub epoch_chunk : Digest → Option ℕ → List String
epoch_chunk h none = []
epoch_chunk h (some epoch) = h.dumps (num epoch) ∷ []

abbrev pub inputs_chunk : Digest → Dict Input → List String
inputs_chunk h [] = []
inputs_chunk h (ip ∷ rest) = h.dumps (obj (text_fields (input_ids (ip ∷ rest)))) ∷ []

abbrev pub mounts_chunk : Digest → Dict Mount → List String
mounts_chunk h [] = []
mounts_chunk h (mnt ∷ rest) =
    h.dumps (arr (texts (map (λ m. m.id) (Dict.values (mnt ∷ rest))))) ∷ []

unfoldable pub stage_id : Digest → Stage → String
stage_id h s = h.sha256 (
    h.dumps (str s.info_name)
    ∷ h.dumps (opt_text s.build)
    ∷ h.dumps (opt_text s.base)
    ∷ h.dumps s.options
    ∷ (epoch_chunk h s.source_epoch ++ (inputs_chunk h s.inputs ++ mounts_chunk h s.mounts)))

input_dependencies : List Input → List (Option String)
input_dependencies [] = []
input_dependencies (ip ∷ rest) =
    let later = input_dependencies rest in
    if ip.origin == "org.osbuild.pipeline" then ref_keys ip.refs ++ later else later

unfoldable pub dependencies : Stage → List (Option String)
unfolding input_dependencies ref_keys
dependencies s = input_dependencies (Dict.values s.inputs)

unfoldable pub add_input : Digest → String → ModuleInfo → String → Json → Stage → Stage
add_input h name info origin options s = record s {
  inputs = Dict.put name (input_init h name info origin options) s.inputs;
}

unfoldable pub add_device :
    Digest → String → ModuleInfo → Option ParentDevice → Json → Stage → Stage
add_device h name info parent options s = record s {
  devices = Dict.put name (device_init h name info parent options) s.devices;
}

unfoldable pub add_mount :
    Digest
    → String
    → ModuleInfo
    → Option Device
    → Option String
    → Option String
    → Json
    → Stage
    → Stage
add_mount h name info device partition target options s = record s {
  mounts = Dict.put name (mount_init h name info device partition target options) s.mounts;
}

-- ===== src/Objects.antt =====
-- osbuild/pipeline.py: stages, pipelines and the manifest, with the objects of osbuild/inputs.py,
-- osbuild/devices.py and osbuild/mounts.py that a stage holds. An object that the code mutates is a
-- record that its methods give back changed.
use osbuild.Prelude.{
  ℕ, String, Bool, true, false, Option, none, some, List, [], ◌∷◌, ◌++◌, if◌then◌else◌, truthy_name,
  opt_eq,
}
use osbuild.Prelude.Dict.{Dict}
use osbuild.Json.{Json, Fields, end, field, str, obj, or_empty, opt_text}
use osbuild.Digest.{Digest}

-- The parts of `meta.ModuleInfo` that the constructors below read.
pub record ModuleInfo : Type 0 where
  pub name : String
  pub path : String
  pub caps : List String

-- `Dict[str, Dict]`, whose keys are ids of pipelines, sources or commits. The id of a pipeline
-- without stages is `None`, which is a key like any other.
abbrev pub Refs : Type 0
Refs = List (Option String × Json)

unfoldable pub put_ref : Option String → Json → Refs → Refs
put_ref k v [] = (k, v) ∷ []
put_ref k v ((j, w) ∷ r) = if opt_eq j k then (j, v) ∷ r else (j, w) ∷ put_ref k v r

unfoldable pub ref_keys : Refs → List (Option String)
ref_keys [] = []
ref_keys ((k, v) ∷ r) = k ∷ ref_keys r

-- As JSON: the key `None` is written `null`.
abbrev pub ref_fields : Refs → Fields
ref_fields [] = end
ref_fields ((none, v) ∷ r) = field "null" v (ref_fields r)
ref_fields ((some k, v) ∷ r) = field k v (ref_fields r)

pub record Input : Type 0 where
  pub name : String
  pub info_name : String
  pub info_path : String
  pub origin : String
  pub refs : Refs
  pub options : Json
  pub id : String

-- What a device shows of its parent. Devices never change once they have an id
-- (`MixinImmutableID`), so the two texts stand for the object.
pub record ParentDevice : Type 0 where
  pub name : String
  pub id : String

pub record Device : Type 0 where
  pub name : String
  pub info_name : String
  pub info_path : String
  pub parent : Option ParentDevice
  pub options : Json
  pub id : String

pub record Mount : Type 0 where
  pub name : String
  pub info_name : String
  pub info_path : String
  pub device : Option Device
  pub partition : Option String
  pub target : Option String
  pub options : Json
  pub id : String

pub record Stage : Type 0 where
  pub info_name : String
  pub info_path : String
  pub info_caps : List String
  pub sources : Json
  pub build : Option String
  pub base : Option String
  pub options : Json
  pub source_epoch : Option ℕ
  pub checkpoint : Bool
  pub inputs : Dict Input
  pub devices : Dict Device
  pub mounts : Dict Mount

pub record Runner : Type 0 where
  pub info_path : String
  pub name : String

pub record Pipeline : Type 0 where
  pub name : String
  pub build : Option String
  pub runner : Runner
  pub stages : List Stage
  pub assembler : Option Stage
  pub source_epoch : Option ℕ

pub record Source : Type 0 where
  pub info_name : String
  pub items : Dict Json
  pub options : Json

pub record Manifest : Type 0 where
  pub metadata : Dict Json
  pub pipelines : Dict Pipeline
  pub sources : List Source

-- A chunk of a hash that is left out where the value is `None` or empty.
abbrev chunk_if : Bool → String → List String
chunk_if true s = s ∷ []
chunk_if false s = []

module _ (h : Digest) where
  unfoldable pub input_calc_id : Input → String
  input_calc_id ip = h.sha256 (
      h.dumps (str ip.info_name)
      ∷ h.dumps (str ip.origin)
      ∷ h.dumps (obj (ref_fields ip.refs))
      ∷ h.dumps ip.options
      ∷ [])

  unfoldable pub input_init : String → ModuleInfo → String → Json → Input
  unfolding input_calc_id
  input_init name info origin options =
      let ip : Input = record {
        name = name;
        info_name = info.name;
        info_path = info.path;
        origin = origin;
        refs = [];
        options = or_empty options;
        id = "";
      } in
      record ip { id = input_calc_id ip }

  unfoldable pub add_reference : Option String → Json → Input → Input
  unfolding input_calc_id put_ref
  add_reference ref options ip =
      let changed : Input = record ip { refs = put_ref ref (or_empty options) ip.refs } in
      record changed { id = input_calc_id changed }

  unfoldable pub device_calc_id : String → Option ParentDevice → Json → String
  device_calc_id info_name none options = h.sha256 (h.dumps (str info_name) ∷ h.dumps options ∷ [])
  device_calc_id info_name (some parent) options =
      h.sha256 (h.dumps (str info_name) ∷ h.dumps (str parent.id) ∷ h.dumps options ∷ [])

  unfoldable pub device_init : String → ModuleInfo → Option ParentDevice → Json → Device
  unfolding device_calc_id
  device_init name info parent options = record {
    name = name;
    info_name = info.name;
    info_path = info.path;
    parent = parent;
    options = or_empty options;
    id = device_calc_id info.name parent (or_empty options);
  }

  abbrev device_chunk : Option Device → List String
  device_chunk none = []
  device_chunk (some d) = h.dumps (str d.id) ∷ []

  unfoldable pub mount_calc_id :
      String → Option Device → Option String → Option String → Json → String
  mount_calc_id info_name device partition target options = h.sha256 (
      h.dumps (str info_name)
      ∷ (device_chunk device
          ++ (chunk_if (truthy_name partition) (h.dumps (opt_text partition))
              ++ (chunk_if (truthy_name target) (h.dumps (opt_text target))
                  ++ h.dumps options ∷ []))))

  unfoldable pub mount_init :
      String → ModuleInfo → Option Device → Option String → Option String → Json → Mount
  unfolding mount_calc_id
  mount_init name info device partition target options = record {
    name = name;
    info_name = info.name;
    info_path = info.path;
    device = device;
    partition = partition;
    target = target;
    options = options;
    id = mount_calc_id info.name device partition target options;
  }

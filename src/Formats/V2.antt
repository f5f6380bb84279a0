-- ===== src/Formats/V2.antt =====
-- osbuild/formats/v2.py: the second version of the manifest description, as the schema lets it
-- through: an object of the JSON text is a record, a key that may be missing is an `Option`.
pub mod Describe
pub mod Devices
pub mod Load
pub mod Output
pub mod Refs
pub mod Validate
use osbuild.Prelude.{ℕ, String, Option, List}
use osbuild.Prelude.Dict.{Dict}
use osbuild.Json.{Json}

pub record DeviceDesc : Type 0 where
  pub kind : String
  pub options : Option Json
  pub parent : Option String

-- `make_ref` takes a text, or an object with an id and options; anything else is refused.
pub data RefItem : Type 0 where
  name_ref : String → RefItem
  object_ref : Option String → Option Json → RefItem
  bad_ref : RefItem

pub data RefsDesc : Type 0 where
  no_refs : RefsDesc
  ref_list : List RefItem → RefsDesc
  ref_dict : Dict Json → RefsDesc

pub record InputDesc : Type 0 where
  pub kind : String
  pub origin : String
  pub options : Option Json
  pub references : RefsDesc

pub record MountDesc : Type 0 where
  pub kind : String
  pub name : String
  pub source : Option String
  pub partition : Option String
  pub target : Option String
  pub options : Option Json

pub record StageDesc : Type 0 where
  pub kind : String
  pub options : Option Json
  pub devices : Dict DeviceDesc
  pub inputs : Dict InputDesc
  pub mounts : List MountDesc

pub record PipelineDesc : Type 0 where
  pub name : String
  pub build : Option String
  pub source_epoch : Option ℕ
  pub runner : Option String
  pub stages : List StageDesc

pub record SourceDesc : Type 0 where
  pub items : Dict Json
  pub options : Option Json

pub record Description : Type 0 where
  pub sources : Dict SourceDesc
  pub pipelines : List PipelineDesc
  pub metadata : Dict Json

-- ===== src/Tests/Descriptions.antt =====
-- Runs of `load` of osbuild/formats/v2.py on a description with two pipelines.
use osbuild.Prelude.Dict
use osbuild.Prelude.{
  false, String, List, [], ◌∷◌, Option, none, some, Result, map, ok, err, ◌≡◌, refl,
}
use osbuild.Objects.{ModuleInfo, Manifest}
use osbuild.Manifest.{manifest_init}
use osbuild.Formats.V2.{DeviceDesc, MountDesc, StageDesc, PipelineDesc, Description}
use osbuild.Formats.V2.Load.{Index, load}
use osbuild.Formats.V2.Load.Chains.{AllChain, load-AllChain}
use osbuild.Formats.V2.Load.Names.{load-keys}
use osbuild.Tests.Samples.{digest}
use osbuild.Manifest.{get_item, named}
use osbuild.Formats.V2.Refs.{resolve_ref}

abbrev pub index : Index
index = record {
  module_info = λ kind name. some (record { name = name; path = name; caps = [] });
  detect_runner = λ name. ok name;
  detect_host_runner = ok "org.osbuild.linux";
  basename = λ path. path;
}

abbrev stage_desc : String → StageDesc
stage_desc kind = record { kind = kind; options = none; devices = []; inputs = []; mounts = [] }

abbrev disk : DeviceDesc
disk = record { kind = "org.osbuild.loopback"; options = none; parent = none }

abbrev root : MountDesc
root = record {
  kind = "org.osbuild.ext4";
  name = "root";
  source = some "disk";
  partition = none;
  target = some "/";
  options = none;
}

abbrev description : Description
description = record {
  sources = [];
  pipelines =
      record {
        name = "build";
        build = none;
        source_epoch = none;
        runner = some "org.osbuild.fedora38";
        stages = stage_desc "org.osbuild.rpm" ∷ [];
      }
      ∷ record {
        name = "tree";
        build = some "name:build";
        source_epoch = some 7;
        runner = none;
        stages =
            stage_desc "org.osbuild.copy"
            ∷ record {
              kind = "org.osbuild.grub2";
              options = none;
              devices = ("disk", disk) ∷ [];
              inputs = [];
              mounts = root ∷ [];
            }
            ∷ [];
      }
      ∷ [];
  metadata = [];
}

abbrev or_empty_manifest : Result Manifest → Manifest
or_empty_manifest (ok m) = m
or_empty_manifest (err e) = manifest_init

abbrev loaded : Manifest
loaded = or_empty_manifest (load digest description index)

load_run : load digest description index ≡ ok loaded
unfolding load osbuild.Formats.V2.Load.load_pipelines osbuild.Formats.V2.Load.load_pipeline
    osbuild.Manifest.add_pipeline osbuild.Prelude.Dict.has osbuild.Formats.V2.Load.load_stages
    osbuild.Formats.V2.Load.load_stage osbuild.Formats.V2.Devices.sort_devices
    osbuild.Prelude.Dict.keys osbuild.Formats.V2.Load.load_inputs
    osbuild.Formats.V2.Load.load_mounts osbuild.Formats.V2.Refs.resolve_ref osbuild.Prelude.Dict.get
    osbuild.Prelude.Dict.put osbuild.Formats.V2.Devices.pass osbuild.Formats.V2.Devices.wait_for
    osbuild.Formats.V2.Devices.filter_names osbuild.Formats.V2.Load.load_device
    osbuild.Formats.V2.Devices.sort_rounds osbuild.Formats.V2.Load.load_devices
    osbuild.Formats.V2.Load.load_mount osbuild.Formats.V2.Load.runner_init
    osbuild.Objects.device_init osbuild.Objects.mount_init osbuild.Pipeline.add_stage
    osbuild.Pipeline.last_id osbuild.Pipeline.pipeline_id osbuild.Pipeline.pipeline_init
    osbuild.Prelude.Dict.values osbuild.Stage.add_device osbuild.Stage.add_mount
    osbuild.Stage.stage_id osbuild.Stage.stage_init
load_run = refl

load-AllChain_example : AllChain digest loaded
load-AllChain_example = load-AllChain digest description index loaded load_run

load-keys_example : Dict.keys loaded.pipelines ≡ map (λ d. d.name) description.pipelines
load-keys_example = load-keys digest description index loaded load_run

-- ===== src/Tests/Samples.antt =====
-- Test data: a digest that names a stage after its module, two pipelines, and what they are made of.
use osbuild.Prelude.{String, List, [], ◌∷◌, Option, none, some, false, map}
use osbuild.Json.{Json, str, null, obj, end}
use osbuild.Digest.{Digest}
use osbuild.Objects.{Stage, Runner, Pipeline, Manifest}

abbrev first_chunk : List String → String
first_chunk [] = ""
first_chunk (x ∷ xs) = x

abbrev dump : Json → String
dump (str s) = s
dump _ = "{}"

abbrev pub digest : Digest
digest = record { dumps = dump; sha256 = first_chunk }

abbrev pub runner : Runner
runner = record { info_path = "/usr/lib/osbuild/runners/org.osbuild.fedora38"; name = "fedora38" }

abbrev pub stage : String → Stage
stage name = record {
  info_name = name;
  info_path = name;
  info_caps = [];
  sources = null;
  build = none;
  base = none;
  options = obj end;
  source_epoch = none;
  checkpoint = false;
  inputs = [];
  devices = [];
  mounts = [];
}

abbrev pub pipeline : String → Option String → List String → Pipeline
pipeline name build stages = record {
  name = name;
  build = build;
  runner = runner;
  stages = map stage stages;
  assembler = none;
  source_epoch = none;
}

abbrev pub build_pipeline : Pipeline
build_pipeline = pipeline "build" none ("org.osbuild.rpm" ∷ [])

abbrev pub tree_pipeline : Pipeline
tree_pipeline =
    pipeline "tree" (some "org.osbuild.rpm") ("org.osbuild.copy" ∷ "org.osbuild.hostname" ∷ [])

abbrev pub manifest : Manifest
manifest = record {
  metadata = [];
  pipelines = ("build", build_pipeline) ∷ ("tree", tree_pipeline) ∷ [];
  sources = [];
}

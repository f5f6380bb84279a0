-- ===== src/Lib.antt =====
-- osbuild builds operating system images from a manifest. This library models its core.
--
-- A manifest has pipelines, a pipeline has stages, and a stage has inputs, devices and mounts.
-- Every one of them has an id, a hash of what it is made from. A format validates a JSON
-- description against the schemata of its modules and loads it into a manifest; `depsolve` finds
-- which pipelines have to be built, and in which order; `build` downloads the sources and runs
-- these pipelines; a pipeline is built from the last stage that the object store has; the object
-- store keeps finished trees in a cache on disk, which evicts what was not used for long; the
-- format turns the results into JSON. Paths are from the root of the repository.
--
-- Prelude: shared types and lemmas: Boolean tests, lists, results that may be errors (an error is
-- its class, messages are left out), Python dictionaries (Prelude/Dict) and integers
-- (Prelude/Int).
-- Json, Digest: JSON values and how Python reads them (Json/Reads), and the two library calls
-- behind an id, `json.dumps` and `sha256`, as a record that is a parameter.
-- Objects, Stage, Pipeline: osbuild/inputs.py, osbuild/devices.py, osbuild/mounts.py and the
-- classes Stage, Runner and Pipeline of osbuild/pipeline.py. A mutable object is a record, and a
-- method gives back the changed record.
-- Manifest: the class Manifest of osbuild/pipeline.py. The loop of `depsolve` has fuel for its
-- rounds, which is an argument; Manifest/Termination is about how much is enough. Manifest/Order
-- says what a build order is, Manifest/Depsolve is about the order that is returned.
-- Checkpoints: `Manifest.mark_checkpoints`. `fnmatch` is a parameter, a set is a list.
-- Meta: osbuild/meta.py. Runners has RunnerInfo and the runners of Index, with Names about how a
-- name is taken apart, Order about how runners are sorted and Best about which one is detected.
-- Schemas has validation errors and results and the class Schema, with Accepts about a single
-- schema; Schemas/Cached has `Index.get_schema`. The disk and `jsonschema` are parameters.
-- FsCache: osbuild/util/fscache.py as one process sees it: a directory is a dictionary, a lock is
-- a field of its entry, and a context manager is two functions, before and after the block. Lru
-- has the eviction and Store the method `store`. The disk usage that the file system reports is
-- the parameter Space. Rules has the proof rules for `store` and the eviction; Bounds is about the
-- recorded size, Lookup about the entries behind a store and Load about a load, Evict, Sorting and
-- Oldest about the eviction, InfoFile and Info/Json about the file `cache.info`.
-- ObjectStore: osbuild/objectstore.py over that cache. The content of an object is abstract, with
-- the operations of the record Contents.
-- Build: `Pipeline.build_stages` and `Pipeline.run` on the host, with the effect of a stage as the
-- parameter `exec`. Build/Start has the reference, a full build with no store, and Build/Resume
-- compares the two; Build/Failure is about a stage that fails.
-- Sources: osbuild/sources.py: the results of the source services, their JSON form
-- (Sources/RoundTrip) and `copy_all`.
-- Run: `Manifest.download` and `Manifest.build` with their results. Run/Targets is about a build
-- that succeeds, Run/Stopped about one that fails.
-- Monitor: osbuild/monitor.py: the monitor that writes JSON entries. Monitor/Written is about how
-- its contexts are written, Monitor/Contexts has a reader of them, Monitor/Failing is about the
-- results of sources, Monitor/Runs has the calls that a monitor gets as a step relation.
-- Formats: osbuild/formats. In V1, osbuild/formats/v1.py, the loader is in the module itself,
-- V1/Names is about the pipelines that it makes, and V1/Output has `output`, whose recursion over
-- build pipelines has fuel for as many as the manifest has pipelines and one more;
-- V1/Output/Success is about what it says and with how much fuel it ends; V1/Describe has
-- `describe`, with the same fuel, and V1/Describe/Nesting is about the nested description. In V2,
-- osbuild/formats/v2.py, Devices has `sort_devices`, whose fuel is the number of devices, which is
-- enough since a round that is followed by another has cleared a device; Refs and Load have the
-- loader, and Load/Bases and Load/Chains are about the bases of loaded stages, Load/Names about
-- the names of the pipelines; Describe has `describe`, and Describe/Reference is about a reference
-- that it writes; Output has `output`, and Output/Errors is about failed builds; Validate has
-- `validate`, Validate/Walk relates two walks over a manifest, Validate/Modules reads the modules
-- of a manifest off its description, and Validate/Valid compares the result with these;
-- Validate/Shape is about the manifests that the walk gets through, and Validate/Total about
-- `validate` of these. What the loaders ask of osbuild/meta.py is the record Index of V2/Load.
-- Host: osbuild/host.py. Protocol has the messages, Service the loop of a service, which is a
-- state with a dispatch, Client the call, and Manager the services of a manager. Calls puts a call
-- and the round that answers it together, Replies is about the loop, Manager/Exit about the end of
-- a context; how the sending of a reply ends is an input of the loop.
-- Lvm2: osbuild/util/lvm2.py. Text has the substitutions, with the tokens that they leave in
-- Text/Lexing, Text/Spelling and Text/Parts, and decimal numbers, with Text/Decimal. Metadata has
-- the reader, with Metadata/Strings and Metadata/Reading, whose fuel is one more than there are
-- tokens: every call takes a token. Encode has the writer, Encode/Tokens the metadata that can be
-- read back and Encode/Spelled their tokens; RoundTrip puts them together. Volumes is the class
-- Metadata, with Volumes/Renamed. Struct has packed fields (Struct/Packed) and files
-- (Struct/Files); Headers has the metadata area, with Headers/Rows, Headers/Packing and
-- Headers/Flushed, and fuel for its loops of one more than there are bytes, with Headers/Fuel;
-- Disk has the class Disk, with Disk/Renaming.
-- Tests: runs at concrete inputs.
--
-- Not modelled: the processes and sockets of services, the event loop of their manager, the build
-- root and the VM, the monitor that writes to a terminal, the solver, the command line and the
-- stages themselves, which are programs that call system tools; `validate` of the first format;
-- other processes that work on the same cache at the same time; and names in a manifest that are
-- numbers, Booleans or null where the schema asks for a text, which are refused where Python would
-- go on with some of them.
mod Tests
pub mod Prelude
pub mod Json
pub mod Digest
pub mod Objects
pub mod Stage
pub mod Pipeline
pub mod Manifest
pub mod Meta
pub mod FsCache
pub mod ObjectStore
pub mod Build
pub mod Sources
pub mod Run
pub mod Monitor
pub mod Checkpoints
pub mod Formats
pub mod Host
pub mod Lvm2

-- ===== src/Tests/Builds.antt =====
-- A run of osbuild/pipeline.py's `build_stages`: the store has the tree behind the first of two stages.
-- The content of an object is the number of stages that made it.
use osbuild.Prelude.{
  ℕ, suc, true, false, List, [], ◌∷◌, ◌++◌, map, Option, none, some, Result, ok, err, ◌≡◌, refl,
  sym, ap, subst, Has, All,
}
use osbuild.Prelude.Dict
use osbuild.Prelude.Int.{pos}
use osbuild.Json.{null}
use osbuild.Objects.{Stage, Pipeline}
use osbuild.Stage.{stage_id}
use osbuild.Pipeline.{pipeline_id}
use osbuild.FsCache.{free, Entry, FsCache}
use osbuild.FsCache.Info.{bytes}
use osbuild.ObjectStore
use osbuild.ObjectStore.{Object, ObjectStore, Contents, read}
use osbuild.Build.{
  BuildTree, host_tree, Exec, StageResult, build_missing, find_build_tree, all_success,
}
use osbuild.Build.Failure.{IsStopped, build_missing-failure}
use osbuild.Build.Resume.{build_missing-from_scratch}
use osbuild.Build.Start.{IsCoherent, IsMissing, EndsStored, from_scratch}
use osbuild.Tests.Samples.{digest, runner, stage, pipeline}

abbrev pub contents : Contents ℕ
contents = record {
  fresh = 0;
  clamp = λ epoch c. c;
  space = record { of_data = λ c. c; of_entry = λ e. e.content };
}

abbrev pub exec : Exec ℕ
exec bt r s c = (suc c, record { returncode = 0; output = ""; error = null })

abbrev pub copied : Entry ℕ
copied = record { content = 1; info = none; lock = free; atime = 3 }

abbrev pub cache : FsCache ℕ
cache = record {
  objects = ("org.osbuild.copy", copied) ∷ [];
  size = 1;
  info_file = none;
  info = record { creation_boot_id = none; maximum_size = bytes (pos 9); version = some (pos 1) };
  maximum_size = pos 9;
  bootid = "b";
}

abbrev pub start : ObjectStore ℕ
start = record { cache = cache; objs = []; read_only = false; clock = 4; uuids = λ n. "uuid-1" }

abbrev pub tree : Pipeline
tree = pipeline "tree" none ("org.osbuild.copy" ∷ "org.osbuild.hostname" ∷ [])

abbrev some_content : Result (Option (Object ℕ) × ObjectStore ℕ) → Option ℕ
some_content (ok (some o, s)) = some o.content
some_content _ = none

start-IsCoherent : IsCoherent digest contents exec host_tree runner tree.stages start
unfolding from_scratch ObjectStore.get stage_id ObjectStore.get_floating osbuild.FsCache.load
    osbuild.FsCache.is_compatible Dict.get
start-IsCoherent [] after s o s' e g =
    let same : stage "org.osbuild.copy" ≡ s = cc in
    subst (λ (r : Stage). from_scratch exec host_tree runner (r ∷ []) 0 ≡ some o.content) same
      (ap some_content (
        subst (λ (r : Stage). ObjectStore.get (some (stage_id digest r)) start ≡ ok (some o, s'))
          (sym same) g))
start-IsCoherent (x ∷ []) after s o s' e g =
    let same : stage "org.osbuild.hostname" ≡ s = cc in
    let found = ap some_content (
      subst (λ (r : Stage). ObjectStore.get (some (stage_id digest r)) start ≡ ok (some o, s'))
        (sym same) g) in
    cc
start-IsCoherent (x ∷ y ∷ []) after s o s' e g = cc
start-IsCoherent (x ∷ y ∷ z ∷ before) after s o s' e g = cc

abbrev results_of : Result (List StageResult × ObjectStore ℕ) → List StageResult
results_of (ok (results, s)) = results
results_of (err e) = []

abbrev store_of : Result (List StageResult × ObjectStore ℕ) → ObjectStore ℕ
store_of (ok (results, s)) = s
store_of (err e) = start

abbrev built : Result (List StageResult × ObjectStore ℕ)
built = build_missing digest contents exec tree start

built_run : built ≡ ok (results_of built, store_of built)
unfolding build_missing ObjectStore.new osbuild.Build.plan ObjectStore.get ObjectStore.get_floating
    osbuild.FsCache.load stage_id osbuild.FsCache.is_compatible Dict.get ObjectStore.init
    osbuild.Build.run_stages osbuild.Build.stage_result_init
built_run = refl

built_success : all_success (results_of built) ≡ true
unfolding build_missing all_success ObjectStore.new osbuild.Build.plan ObjectStore.get
    ObjectStore.get_floating osbuild.FsCache.load stage_id osbuild.FsCache.is_compatible Dict.get
    ObjectStore.init osbuild.Build.run_stages osbuild.Build.stage_result_init
built_success = refl

found_run : find_build_tree digest contents exec tree.build start ≡ ok (host_tree, start)
unfolding find_build_tree
found_run = refl

build_missing-from_scratch_example :
    (c : ℕ) × (before : List Stage) × (todo : List Stage) × (tree.stages ≡ before ++ todo)
    × EndsStored digest contents exec host_tree runner start before
    × All (IsMissing digest contents exec host_tree runner start) todo
    × (map (λ r. r.id) (results_of built) ≡ map (stage_id digest) todo)
    × (from_scratch exec host_tree runner tree.stages 0 ≡ some c)
    × Has
        (record { id = pipeline_id digest tree; mode = read; content = c; source_epoch = none })
        (store_of built).objs
build_missing-from_scratch_example =
    build_missing-from_scratch digest contents exec host_tree runner tree start start
      (store_of built) (results_of built) refl refl found_run start-IsCoherent built_run
      built_success

-- The same build, where the stage fails.
abbrev pub broken : Exec ℕ
broken bt r s c = (c, record { returncode = 1; output = "error"; error = null })

abbrev failed : Result (List StageResult × ObjectStore ℕ)
failed = build_missing digest contents broken tree start

failed_run : failed ≡ ok (results_of failed, store_of failed)
unfolding build_missing ObjectStore.new osbuild.Build.plan ObjectStore.get ObjectStore.get_floating
    osbuild.FsCache.load stage_id osbuild.FsCache.is_compatible Dict.get ObjectStore.init
    osbuild.Build.run_stages osbuild.Build.stage_result_init
failed_run = refl

failed_success : all_success (results_of failed) ≡ false
unfolding build_missing all_success ObjectStore.new osbuild.Build.plan ObjectStore.get
    ObjectStore.get_floating osbuild.FsCache.load stage_id osbuild.FsCache.is_compatible Dict.get
    ObjectStore.init osbuild.Build.run_stages osbuild.Build.stage_result_init
failed_success = refl

build_missing-failure_example :
    IsStopped (results_of failed)
    × (ObjectStore.get_floating (some "org.osbuild.hostname") (store_of failed).objs
        ≡ ObjectStore.get_floating (some "org.osbuild.hostname") [])
build_missing-failure_example =
    build_missing-failure digest contents broken tree start (store_of failed) (results_of failed)
      (some "org.osbuild.hostname") failed_run failed_success

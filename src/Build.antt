-- ===== src/Build.antt =====
-- osbuild/pipeline.py: building a pipeline, in `Pipeline.build_stages` and `Pipeline.run`, on the
-- host and not in a VM. What a stage does when it runs is the parameter `exec`.
pub mod Start
pub mod Resume
pub mod Failure
use osbuild.Prelude.{
  ℕ, zero, suc, String, Bool, true, false, not, Option, none, some, List, [], ◌∷◌, ◌++◌, map,
  reverse, if◌then◌else◌, truthy_name, Result, ok, err, assertion_error, ◌>>=◌, ◌&&◌,
}
use osbuild.Json.{Json}
use osbuild.Digest.{Digest}
use osbuild.Objects.{Stage, Runner, Pipeline}
use osbuild.Stage.{stage_id}
use osbuild.Pipeline.{pipeline_id}
use osbuild.ObjectStore
use osbuild.ObjectStore.{Object, Contents}

pub record StageResult : Type 0 where
  pub name : String
  pub id : String
  pub success : Bool
  pub output : String
  pub error : Json

pub record PipelineResult : Type 0 where
  pub name : String
  pub success : Bool
  pub stages : List StageResult

-- What a stage reports when its build root is done.
pub record Exit : Type 0 where
  pub returncode : ℕ
  pub output : String
  pub error : Json

-- The tree that a stage is run with as its root: that of the host, or of an object.
pub data BuildTree (C : Type 0) : Type 0 where
  host_tree : BuildTree C
  object_tree : C → BuildTree C

-- `Stage.run`: the content of the object afterwards, and the exit.
abbrev pub Exec : Type 0 → Type 0
Exec C = BuildTree C → Runner → Stage → C → C × Exit

abbrev is_zero : ℕ → Bool
is_zero zero = true
is_zero (suc n) = false

unfoldable pub stage_result_init : Digest → Stage → Exit → StageResult
stage_result_init h origin exit = record {
  name = origin.info_name;
  id = stage_id h origin;
  success = is_zero exit.returncode;
  output = exit.output;
  error = exit.error;
}

unfoldable pub all_success : List StageResult → Bool
all_success [] = true
all_success (r ∷ rs) = r.success && all_success rs

unfoldable pub set_stages : List StageResult → PipelineResult → PipelineResult
unfolding all_success
set_stages stages pr = record pr { stages = stages; success = all_success stages }

module _ {C : Type 0} (h : Digest) (k : Contents C) (exec : Exec C) where
  build_object :
      Option (Object C) × ObjectStore.ObjectStore C
      → Result (BuildTree C × ObjectStore.ObjectStore C)
  build_object (none, s) = err assertion_error
  build_object (some obj, s) = ok (object_tree obj.content, s)

  -- The host's tree if the pipeline has no build pipeline, and else the object of that pipeline.
  unfoldable pub find_build_tree :
      Option String → ObjectStore.ObjectStore C → Result (BuildTree C × ObjectStore.ObjectStore C)
  unfolding build_object
  find_build_tree build s =
      if not (truthy_name build)
      then ok (host_tree, s)
      else (ObjectStore.get build s >>= build_object)

  -- The loop over `reversed(self.stages)`: the object is initialised with the last stage that the
  -- store has, and the stages behind it are left to do. `todo` is in the order of the stages.
  unfoldable pub plan :
      List Stage
      → List Stage
      → Object C
      → ObjectStore.ObjectStore C
      → Result (Object C × List Stage × ObjectStore.ObjectStore C)
  plan [] todo tree s = ok (tree, todo, s)
  plan (stage ∷ before) todo tree s = ObjectStore.get (some (stage_id h stage)) s >>= λ found.
      elim found.0 [
        | none ↦ plan before (stage ∷ todo) tree found.1
        | some base ↦ ObjectStore.init base tree >>= λ tree'. ok (tree', todo, found.1)
      ]

  -- The object under construction joins those of the store: it can be got by its id once `finalize`
  -- has made it readable, and never if a stage failed. (`cleanup`, in the code, is never run: the
  -- `map` of it is not consumed.)
  join : Object C → ObjectStore.ObjectStore C → ObjectStore.ObjectStore C
  join tree s = record s { objs = s.objs ++ tree ∷ [] }

  -- `while todo`. A stage that fails ends the build; one that is a checkpoint is committed.
  unfoldable pub run_stages :
      BuildTree C
      → Runner
      → List Stage
      → Object C
      → List StageResult
      → ObjectStore.ObjectStore C
      → Result (List StageResult × ObjectStore.ObjectStore C)
  unfolding join
  run_stages bt runner [] tree results s = ok (results, join (ObjectStore.finalize k tree) s)
  run_stages bt runner (stage ∷ rest) tree results s =
      let (content, exit) = exec bt runner stage tree.content in
      let built : Object C = record tree { content = content } in
      let r = stage_result_init h stage exit in
      elim r.success [
        | false ↦ ok (results ++ r ∷ [], join built s)
        | true ↦ elim stage.checkpoint [
          | false ↦ run_stages bt runner rest built (results ++ r ∷ []) s
          | true ↦ ObjectStore.commit k built (stage_id h stage) s >>= λ done.
              run_stages bt runner rest done.0 (results ++ r ∷ []) done.1
        ]
      ]

  -- Past the checks: the pipeline has stages and its tree is not in the store.
  unfoldable pub build_missing :
      Pipeline → ObjectStore.ObjectStore C → Result (List StageResult × ObjectStore.ObjectStore C)
  unfolding find_build_tree
  build_missing pl s = do
    bt ← find_build_tree pl.build s
    new_tree ← ObjectStore.new k (pipeline_id h pl) bt.1
    planned ← plan (reverse pl.stages) [] (record new_tree { source_epoch = pl.source_epoch }) bt.1
    run_stages bt.0 pl.runner planned.1 planned.0 [] planned.2

  unfoldable pub build_stages :
      Pipeline → ObjectStore.ObjectStore C → Result (List StageResult × ObjectStore.ObjectStore C)
  unfolding build_missing
  build_stages pl s = elim pl.stages [
    | [] ↦ ok ([], s)
    | first ∷ rest ↦ ObjectStore.contains (pipeline_id h pl) s >>= λ there. elim there.0 [
      | true ↦ ok ([], there.1)
      | false ↦ build_missing pl there.1
    ]
  ]

  unfoldable pub run :
      Pipeline → ObjectStore.ObjectStore C → Result (PipelineResult × ObjectStore.ObjectStore C)
  unfolding set_stages
  run pl s = build_stages pl s >>= λ done.
      ok (set_stages done.0 (record { name = pl.name; success = true; stages = [] }), done.1)

-- ===== src/Manifest.antt =====
-- osbuild/pipeline.py, class Manifest: looking pipelines up, and `depsolve`, which orders what has
-- to be built.
pub mod Order
pub mod Depsolve
pub mod Termination
use osbuild.Prelude.{
  ℕ, zero, suc, String, Bool, true, false, Option, none, some, List, [], ◌∷◌, ◌++◌, map, reverse,
  reverse_aux, if◌then◌else◌, truthy_name, opt_eq, Result, ok, err, value_error, key_error,
  runtime_error,
}
use osbuild.Prelude.Dict
use osbuild.Prelude.Dict.{Dict}
use osbuild.Json.{Json}
use osbuild.Digest.{Digest}
use osbuild.Objects.{ModuleInfo, Stage, Runner, Pipeline, Source, Manifest}
use osbuild.Stage.{stage_id, dependencies}
use osbuild.Pipeline.{pipeline_init, pipeline_id}

abbrev pub manifest_init : Manifest
manifest_init = record { metadata = []; pipelines = []; sources = [] }

unfoldable pub add_metadata : String → Json → Manifest → Manifest
add_metadata name value m = record m { metadata = Dict.put name value m.metadata }

unfoldable pub add_pipeline :
    String → Runner → Option String → Option ℕ → Manifest → Result Manifest
add_pipeline name runner build source_epoch m =
    if Dict.has name m.pipelines
    then err value_error
    else ok (record m {
      pipelines = Dict.put name (pipeline_init name runner build source_epoch) m.pipelines;
    })

unfoldable pub add_source : ModuleInfo → Dict Json → Json → Manifest → Manifest
add_source info items options m =
    let source : Source = record { info_name = info.name; items = items; options = options } in
    record m { sources = m.sources ++ source ∷ [] }

-- `dict.get` at a key that may be `None`.
unfoldable pub named : Option String → Dict Pipeline → Option Pipeline
named none pls = none
named (some name) pls = Dict.get name pls

module _ (h : Digest) where
  unfoldable pub find_id : Option String → List Pipeline → Option Pipeline
  find_id id [] = none
  find_id id (pl ∷ rest) = if opt_eq (pipeline_id h pl) id then some pl else find_id id rest

  abbrev or_find : Option Pipeline → Option String → List Pipeline → Option Pipeline
  or_find (some pl) id pls = some pl
  or_find none id pls = find_id id pls

  unfoldable pub get : Manifest → Option String → Option Pipeline
  unfolding find_id named
  get m name_or_id = or_find (named name_or_id m.pipelines) name_or_id (Dict.values m.pipelines)

  unfoldable pub contains : Manifest → Option String → Bool
  unfolding get
  contains m name_or_id = elim (get m name_or_id) [ none ↦ false | some pl ↦ true ]

  unfoldable pub get_item : Manifest → Option String → Result Pipeline
  unfolding get
  get_item m name_or_id = elim (get m name_or_id) [ none ↦ err key_error | some pl ↦ ok pl ]

module _ (h : Digest) where
  -- `build[pl.id] = pl; build.move_to_end(pl.id)`: the ordered dictionary is the list of its values,
  -- newest first, and the key of a value is its id.
  pub drop_id : Option String → List Pipeline → List Pipeline
  drop_id id [] = []
  drop_id id (pl ∷ rest) =
      let kept = drop_id id rest in if opt_eq id (pipeline_id h pl) then kept else pl ∷ kept

  move_to_end : Pipeline → List Pipeline → List Pipeline
  unfolding drop_id
  move_to_end pl build = pl ∷ drop_id (pipeline_id h pl) build

-- `list(map(lambda x: x.name, reversed(build.values())))`
abbrev pub names : Option (Result (List Pipeline)) → Option (Result (List String))
names none = none
names (some (err e)) = some (err e)
names (some (ok build)) = some (ok (map (λ pl. pl.name) build))

-- `stored` is the answer of `store.contains`. The checks of `depsolve` only read the store, so its
-- answers stay the same while it runs.
module _ (h : Digest) (m : Manifest) (stored : Option String → Bool) where
  -- `if pl.build: check.append(self.get(pl.build))`. The stack `check` has its top first.
  push_build : Option String → List (Option Pipeline) → List (Option Pipeline)
  push_build none check = check
  push_build (some build) check =
      if truthy_name (some build) then get h m (some build) ∷ check else check

  -- The loop over `reversed(pl.stages)`, which stops at the first stage that the store has.
  push_stages : List Stage → List (Option Pipeline) → List (Option Pipeline)
  push_stages [] check = check
  push_stages (s ∷ rest) check =
      let pushed = push_stages rest (reverse_aux (map (get h m) (dependencies s)) check) in
      if stored (some (stage_id h s)) then check else pushed

  -- One round of `while check`, up to the `continue`s: `none` is the error.
  pub visit : Pipeline → List (Option Pipeline) → List (Option Pipeline)
  unfolding push_build push_stages
  visit pl check = push_stages (reverse pl.stages) (push_build pl.build check)

  -- `while check`, with fuel for its rounds; `none` means that the fuel ran out. Newest first is the
  -- reversed order that the function returns.
  unfoldable pub depsolve_loop :
      ℕ → List (Option Pipeline) → List Pipeline → Option (Result (List Pipeline))
  unfolding visit move_to_end
  depsolve_loop zero check build = none
  depsolve_loop (suc n) [] build = some (ok build)
  depsolve_loop (suc n) (none ∷ check) build = some (err runtime_error)
  depsolve_loop (suc n) (some pl ∷ check) build =
      let skipped = depsolve_loop n check build in
      let visited = depsolve_loop n (visit pl check) (move_to_end h pl build) in
      if stored (pipeline_id h pl) then skipped else visited

  unfoldable pub depsolve : ℕ → List String → Option (Result (List String))
  unfolding depsolve_loop
  depsolve fuel targets =
      names (depsolve_loop fuel (reverse (map (λ t. get h m (some t)) targets)) [])

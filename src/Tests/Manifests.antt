-- ===== src/Tests/Manifests.antt =====
-- Runs of osbuild/pipeline.py: the two pipelines of the samples, with nothing in the store.
use osbuild.Prelude.{
  ℕ, ◌+◌, String, ◌==◌, Bool, false, List, [], ◌∷◌, Option, some, ok, ◌≡◌, refl, sym, subst, map,
  inl, inr, All, length, arith,
}
use osbuild.Prelude.Dict
use osbuild.Objects.{Pipeline}
use osbuild.Stage
use osbuild.Stage.{stage_id}
use osbuild.Pipeline.{pipeline_id}
use osbuild.Manifest.{get, depsolve}
use osbuild.Manifest.Order.{IsBuildOrder, Settled, direct}
use osbuild.Manifest.Depsolve.{depsolve_order, ids}
use osbuild.Manifest.Termination.{IsBelow, IsRanked, depsolve_total}
use osbuild.Checkpoints.{mark_pipeline}
use osbuild.Checkpoints.Ids.{mark_pipeline-reported, AllReported}
use osbuild.Tests.Samples.{digest, manifest, tree_pipeline}

abbrev nothing : Option String → Bool
nothing _ = false

abbrev targets : List String
targets = "tree" ∷ []

depsolve_run : depsolve digest manifest nothing 3 targets ≡ some (ok ("build" ∷ "tree" ∷ []))
unfolding depsolve get Dict.get osbuild.Stage.dependencies Dict.values pipeline_id stage_id
depsolve_run = refl

depsolve_order_example :
    (pls : List Pipeline) × (("build" ∷ "tree" ∷ []) ≡ map (λ pl. pl.name) pls)
    × IsBuildOrder digest manifest nothing [] pls
    × All
        (Settled digest manifest nothing (ids digest manifest nothing pls))
        (map (λ t. get digest manifest (some t)) targets)
depsolve_order_example = depsolve_order digest manifest nothing 3 targets depsolve_run

abbrev stage_count : Pipeline → ℕ
stage_count pl = length pl.stages

manifest-IsRanked : IsRanked digest manifest nothing stage_count
unfolding direct get Dict.get osbuild.Stage.dependencies Dict.values pipeline_id stage_id
manifest-IsRanked pl (inl e) =
    subst
      (λ (p : Pipeline).
        All (IsBelow digest manifest nothing stage_count (stage_count p))
          (direct digest manifest nothing p))
      (sym e) tt
manifest-IsRanked pl (inr (inl e)) =
    subst
      (λ (p : Pipeline).
        All (IsBelow digest manifest nothing stage_count (stage_count p))
          (direct digest manifest nothing p))
      (sym e) ((inl refl, omega arith), tt)
manifest-IsRanked pl (inr (inr h)) = absurd h

targets-IsBelow :
    All
      (IsBelow digest manifest nothing stage_count 3)
      (map (λ t. get digest manifest (some t)) targets)
unfolding get Dict.get Dict.values
targets-IsBelow = ((inr (inl refl), omega arith), tt)

depsolve_total_example :
    (n : ℕ) × (order : List String) × ((spare : ℕ)
      → depsolve digest manifest nothing (n + spare) targets ≡ some (ok order))
depsolve_total_example =
    depsolve_total digest manifest nothing stage_count manifest-IsRanked 3 targets targets-IsBelow

abbrev same_text : String → String → Bool
same_text s t = s == t

mark_pipeline-reported_example :
    AllReported digest same_text
      ("tree" ∷ "org.osbuild.copy" ∷ [])
      (mark_pipeline digest same_text ("tree" ∷ "org.osbuild.copy" ∷ []) tree_pipeline).1
      (mark_pipeline digest same_text ("tree" ∷ "org.osbuild.copy" ∷ []) tree_pipeline).0.stages
mark_pipeline-reported_example =
    mark_pipeline-reported digest same_text ("tree" ∷ "org.osbuild.copy" ∷ []) tree_pipeline
      (refl, (refl, tt))

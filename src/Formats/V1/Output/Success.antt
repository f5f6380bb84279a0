-- ===== src/Formats/V1/Output/Success.antt =====
-- osbuild/formats/v1.py: which result the `success` of `output` is.
use osbuild.Prelude.{
  ◌>>=◌, ℕ, zero, suc, ◌<◌, true, false, Option, none, some, Result, ok, err, ◌≡◌, refl,
  truthy_name, arith,
}
use osbuild.Digest.{Digest}
use osbuild.Objects.{Pipeline, Manifest}
use osbuild.Pipeline.{pipeline_id}
use osbuild.Manifest.{get_item}
use osbuild.ObjectStore.{ObjectStore}
use osbuild.Build.{PipelineResult}
use osbuild.Run.{Results, find_result}
use osbuild.Formats.V1.Output.{
  Meta, or_empty_result, PipelineOutput, stored, pipeline_part, after_build, with_build,
  result_for_pipeline,
}

-- After so many build pipelines, the second pipeline is the one that has none.
pub data Innermost (h : Digest) (m : Manifest) : ℕ → Pipeline → Pipeline → Type 0 where
  no_build : (pl : Pipeline) → truthy_name pl.build ≡ false → Innermost h m zero pl pl
  built_in :
      (n : ℕ) (pl build last : Pipeline)
      → truthy_name pl.build ≡ true
      → get_item h m pl.build ≡ ok build
      → Innermost h m n build last
      → Innermost h m (suc n) pl last

module _ {C : Type 0} (meta : Meta C) (h : Digest) (m : Manifest) (results : Results) where
  abbrev pub result_of : Pipeline → PipelineResult
  result_of pl = or_empty_result (find_result (pipeline_id h pl) results)

  -- An output that says success where the given pipeline has no failed result.
  abbrev pub Agrees :
      Pipeline → Result (PipelineOutput {C = C} meta × Option (ObjectStore C)) → Type 0
  Agrees last (err e) = Unit
  Agrees last (ok (out, s)) = out.0 ≡ (result_of last).success

  -- There is an answer, and the output agrees if nothing was raised.
  abbrev pub Reflects :
      Pipeline → Option (Result (PipelineOutput {C = C} meta × Option (ObjectStore C))) → Type 0
  Reflects last answer =
      (r : Result (PipelineOutput {C = C} meta × Option (ObjectStore C))) × (answer ≡ some r)
      × Agrees last r

  ended-Agrees :
      {A : Type 0} (last : Pipeline) (got : Result A)
      (end : A → PipelineOutput {C = C} meta × Option (ObjectStore C))
      → ((a : A) → (end a).0.0 ≡ (result_of last).success)
      → Agrees last (got >>= λ a. ok (end a))
  ended-Agrees last (err e) end same = tt
  ended-Agrees last (ok a) end same = same a

  after_build-own :
      (pl : Pipeline) (s : Option (ObjectStore C))
      → Agrees pl (after_build meta h m results pl none s)
  unfolding after_build
  after_build-own pl s =
      ended-Agrees pl (stored meta (pipeline_id h pl) s)
        (λ res. (pipeline_part meta none (result_of pl) res.0, res.1)) (λ res. refl)

  after_build-nested :
      (pl last : Pipeline) (build : PipelineOutput {C = C} meta) (s : Option (ObjectStore C))
      → build.0 ≡ (result_of last).success
      → Agrees last (after_build meta h m results pl (some build) s)
  unfolding after_build
  after_build-nested pl last build s same =
      ended-Agrees last (stored meta (pipeline_id h pl) s)
        (λ res. (pipeline_part meta (some build) (result_of pl) res.0, res.1)) (λ res. same)

  with_build-Reflects :
      (pl last : Pipeline) (r : Result (PipelineOutput {C = C} meta × Option (ObjectStore C)))
      → Agrees last r
      → Reflects last (with_build meta h m results pl (some r))
  with_build-Reflects pl last (err e) same = (err e, refl, tt)
  with_build-Reflects pl last (ok (build, s)) same =
      (_, refl, after_build-nested pl last build s same)

  -- With fuel for all build pipelines of a pipeline, `result_for_pipeline` comes to an end, and where
  -- it raises nothing the `success` that it gives is that of the result of the innermost build
  -- pipeline, or true if that has none; the results of the other pipelines do not count.
  pub result_for_pipeline-Innermost :
      {depth : ℕ} {pl last : Pipeline} (n : ℕ) (s : Option (ObjectStore C))
      → Innermost h m depth pl last
      → depth < n
      → Reflects last (result_for_pipeline meta h m results n pl s)
  unfolding result_for_pipeline
  result_for_pipeline-Innermost zero s chain enough = absurd (omega arith)
  result_for_pipeline-Innermost (suc n) s (no_build pl alone) enough =
      rw (alone, result_for_pipeline) (_, refl, after_build-own pl s)
  result_for_pipeline-Innermost (suc n) s (built_in depth pl build last nested found chain) enough =
      let (r, ended, same) = result_for_pipeline-Innermost n s chain (omega arith) in
      rw (nested, found, ended, result_for_pipeline) (with_build-Reflects pl last r same)

-- ===== src/Checkpoints.antt =====
-- osbuild/pipeline.py: `Manifest.mark_checkpoints`. `fnmatch`, of Python's library, is a parameter.
-- The set of selected ids is a list.
pub mod Ids
use osbuild.Prelude.{
  String, Bool, true, false, ◌||◌, Option, none, some, List, [], ◌∷◌, ◌++◌, if◌then◌else◌,
}
use osbuild.Prelude.Dict
use osbuild.Prelude.Dict.{Dict}
use osbuild.Digest.{Digest}
use osbuild.Objects.{Stage, Pipeline, Manifest}
use osbuild.Stage.{stage_id}
use osbuild.Pipeline.{pipeline_id}

module _ (h : Digest) (fnmatch : String → String → Bool) where
  -- `any(fnmatch(haystack, p) for p in patterns)`
  pub matching : List String → String → Bool
  matching [] haystack = false
  matching (p ∷ patterns) haystack = fnmatch haystack p || matching patterns haystack

  abbrev pub mark : Stage → Stage
  mark s = record s { checkpoint = true }

  pub mark_last : List Stage → List Stage
  mark_last [] = []
  mark_last (s ∷ []) = mark s ∷ []
  mark_last (s ∷ t ∷ rest) = s ∷ mark_last (t ∷ rest)

  pub mark_stages : List String → List Stage → List Stage × List (Option String)
  unfolding matching
  mark_stages patterns [] = ([], [])
  mark_stages patterns (s ∷ rest) =
      let (marked, selected) = mark_stages patterns rest in
      if matching patterns (stage_id h s) || matching patterns s.info_name
      then (mark s ∷ marked, some (stage_id h s) ∷ selected)
      else (s ∷ marked, selected)

  -- A pipeline without stages cannot be marked. One whose name matches has its last stage marked,
  -- and its id selected, before its stages are looked at.
  pub mark_all : List String → Pipeline → List Stage → List Stage × List (Option String)
  unfolding mark_stages mark_last matching
  mark_all patterns pl [] = ([], [])
  mark_all patterns pl (s ∷ rest) =
      let (by_stage, selected) = mark_stages patterns (s ∷ rest) in
      let (by_name, more) = mark_stages patterns (mark_last (s ∷ rest)) in
      if matching patterns pl.name then (by_name, pipeline_id h pl ∷ more) else (by_stage, selected)

  pub mark_pipeline : List String → Pipeline → Pipeline × List (Option String)
  unfolding mark_all
  mark_pipeline patterns pl =
      let (stages, selected) = mark_all patterns pl pl.stages in
      (record pl { stages = stages }, selected)

  pub mark_pipelines : List String → Dict Pipeline → Dict Pipeline × List (Option String)
  unfolding mark_pipeline
  mark_pipelines patterns [] = ([], [])
  mark_pipelines patterns ((name, pl) ∷ rest) =
      let (marked, selected) = mark_pipeline patterns pl in
      let (others, more) = mark_pipelines patterns rest in
      ((name, marked) ∷ others, selected ++ more)

  unfoldable pub mark_checkpoints : List String → Manifest → Manifest × List (Option String)
  unfolding mark_pipelines
  mark_checkpoints patterns m =
      let (pipelines, selected) = mark_pipelines patterns m.pipelines in
      (record m { pipelines = pipelines }, selected)

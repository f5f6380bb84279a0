-- ===== src/Checkpoints/Ids.antt =====
-- osbuild/pipeline.py: `mark_checkpoints`, ids and what it returns.
use osbuild.Prelude.{
  String, Bool, false, ◌||◌, Option, none, some, List, [], ◌∷◌, ◌++◌, map, ◌≡◌, refl, sym, ap, ap₂,
  ◌∙◌, ◌⊎◌, inl, inr, Has, All, All-imp, Has-append_left, Has-append_right, Has-append_skip,
  Bool-cases, arith,
}
use osbuild.Prelude.Dict
use osbuild.Prelude.Dict.{Dict}
use osbuild.Digest.{Digest}
use osbuild.Objects.{Stage, Pipeline, Manifest}
use osbuild.Stage.{stage_id}
use osbuild.Pipeline.{pipeline_id, last_id}
use osbuild.Checkpoints.{
  matching, mark, mark_last, mark_stages, mark_all, mark_pipeline, mark_pipelines, mark_checkpoints,
}

module _ (h : Digest) (fnmatch : String → String → Bool) (patterns : List String) where
  stage_id-mark : (s : Stage) → stage_id h (mark h fnmatch s) ≡ stage_id h s
  unfolding stage_id
  stage_id-mark s = refl

  abbrev ids : List Stage → List String
  ids = map (stage_id h)

  ids-mark_last : (ss : List Stage) → ids (mark_last h fnmatch ss) ≡ ids ss
  unfolding mark_last
  ids-mark_last [] = refl
  ids-mark_last (s ∷ []) = ap (λ i. i ∷ []) (stage_id-mark s)
  ids-mark_last (s ∷ t ∷ rest) = ap (◌∷◌ (stage_id h s)) (ids-mark_last (t ∷ rest))

  ids-mark_stages : (ss : List Stage) → ids (mark_stages h fnmatch patterns ss).0 ≡ ids ss
  unfolding mark_stages
  ids-mark_stages [] = refl
  ids-mark_stages (s ∷ rest) = ground (arith, stage_id-mark s, ids-mark_stages rest)

  -- The id of a list of stages is read off their ids.
  last_of : List String → Option String
  last_of [] = none
  last_of (i ∷ []) = some i
  last_of (i ∷ j ∷ rest) = last_of (j ∷ rest)

  last_id-eq : (ss : List Stage) → last_id h ss ≡ last_of (ids ss)
  unfolding last_id last_of
  last_id-eq [] = refl
  last_id-eq (s ∷ []) = refl
  last_id-eq (s ∷ t ∷ rest) = last_id-eq (t ∷ rest)

  last_id-same : (ss ts : List Stage) → ids ss ≡ ids ts → last_id h ss ≡ last_id h ts
  last_id-same ss ts e = last_id-eq ss ∙ ap last_of e ∙ sym (last_id-eq ts)

  ids-mark_all :
      (pl : Pipeline) (ss : List Stage) → ids (mark_all h fnmatch patterns pl ss).0 ≡ ids ss
  unfolding mark_all
  ids-mark_all pl [] = refl
  ids-mark_all pl (s ∷ rest) = elim (Bool-cases (matching h fnmatch patterns pl.name)) [
    | inl e ↦ rw e (ids-mark_stages (mark_last h fnmatch (s ∷ rest)) ∙ ids-mark_last (s ∷ rest))
    | inr e ↦ rw e (ids-mark_stages (s ∷ rest))
  ]

  pipeline_id-mark_pipeline :
      (pl : Pipeline) → pipeline_id h (mark_pipeline h fnmatch patterns pl).0 ≡ pipeline_id h pl
  unfolding mark_pipeline pipeline_id
  pipeline_id-mark_pipeline pl =
      last_id-same (mark_all h fnmatch patterns pl pl.stages).0 pl.stages
        (ids-mark_all pl pl.stages)

  mark_pipelines-ids :
      (pls : Dict Pipeline)
      → map (pipeline_id h) (Dict.values (mark_pipelines h fnmatch patterns pls).0)
        ≡ map (pipeline_id h) (Dict.values pls)
  unfolding mark_pipelines Dict.values
  mark_pipelines-ids [] = refl
  mark_pipelines-ids ((name, pl) ∷ rest) =
      ap₂ (λ i is. i ∷ is) (pipeline_id-mark_pipeline pl) (mark_pipelines-ids rest)

  -- A stage that is marked has its id among `known`.
  abbrev pub IsReported : List (Option String) → Stage → Type 0
  IsReported known s = (s.checkpoint ≡ false) ⊎ Has (some (stage_id h s)) known

  abbrev pub AllReported : List (Option String) → List Stage → Type 0
  AllReported known = All (IsReported known)

  IsReported-mono :
      (known more : List (Option String)) (s : Stage)
      → ((i : Option String) → Has i known → Has i more)
      → IsReported known s
      → IsReported more s
  IsReported-mono known more s sub (inl e) = inl e
  IsReported-mono known more s sub (inr w) = inr (sub (some (stage_id h s)) w)

  mark_stages-reported :
      (known : List (Option String)) (ss : List Stage)
      → AllReported known ss
      → AllReported
          (known ++ (mark_stages h fnmatch patterns ss).1)
          (mark_stages h fnmatch patterns ss).0
  unfolding mark_stages stage_id
  mark_stages-reported known [] a = tt
  mark_stages-reported known (s ∷ rest) a =
      let more = (mark_stages h fnmatch patterns rest).1 in
      elim (Bool-cases
        (matching h fnmatch patterns (stage_id h s) || matching h fnmatch patterns s.info_name)) [
          | inl e ↦ rw e (
            inr (Has-append_right _ known (some (stage_id h s) ∷ more) (inl refl)),
            All-imp _ _ (mark_stages h fnmatch patterns rest).0
                (λ t.
                  IsReported-mono (known ++ more) (known ++ some (stage_id h s) ∷ more) t
                    (λ i w. Has-append_skip i (some (stage_id h s)) known more w))
                (mark_stages-reported known rest a.1),
          )
          | inr e ↦ rw e (
            IsReported-mono known (known ++ more) s (λ i w. Has-append_left i known more w) a.0,
            mark_stages-reported known rest a.1,
          )
        ]

  mark_last-reported :
      (ss : List Stage)
      → All (λ (s : Stage). s.checkpoint ≡ false) ss
      → AllReported (last_id h ss ∷ []) (mark_last h fnmatch ss)
  unfolding mark_last last_id stage_id
  mark_last-reported [] a = tt
  mark_last-reported (s ∷ []) a = (inr (inl refl), tt)
  mark_last-reported (s ∷ t ∷ rest) a = (inl a.0, mark_last-reported (t ∷ rest) a.1)

  mark_all-reported :
      (pl : Pipeline) (ss : List Stage)
      → last_id h ss ≡ pipeline_id h pl
      → All (λ (s : Stage). s.checkpoint ≡ false) ss
      → AllReported (mark_all h fnmatch patterns pl ss).1 (mark_all h fnmatch patterns pl ss).0
  unfolding mark_all
  mark_all-reported pl [] named a = tt
  mark_all-reported pl (s ∷ rest) named a =
      elim (Bool-cases (matching h fnmatch patterns pl.name)) [
        | inl e ↦
            rw (e, ← named)
              (mark_stages-reported (last_id h (s ∷ rest) ∷ []) (mark_last h fnmatch (s ∷ rest))
                (mark_last-reported (s ∷ rest) a))
        | inr e ↦
            rw e (mark_stages-reported [] (s ∷ rest) (All-imp _ _ (s ∷ rest) (λ t c. inl c) a))
      ]

-- `mark_checkpoints` changes the id of no pipeline.
mark_checkpoints-ids :
    (h : Digest) (fnmatch : String → String → Bool) (patterns : List String) (m : Manifest)
    → map (pipeline_id h) (Dict.values (mark_checkpoints h fnmatch patterns m).0.pipelines)
      ≡ map (pipeline_id h) (Dict.values m.pipelines)
unfolding mark_checkpoints
mark_checkpoints-ids h fnmatch patterns m = mark_pipelines-ids h fnmatch patterns m.pipelines

-- In a pipeline with no marked stage, every stage that `mark_checkpoints` marks has its id in the set
-- that it returns for that pipeline.
pub mark_pipeline-reported :
    (h : Digest) (fnmatch : String → String → Bool) (patterns : List String) (pl : Pipeline)
    → All (λ (s : Stage). s.checkpoint ≡ false) pl.stages
    → AllReported h fnmatch patterns
        (mark_pipeline h fnmatch patterns pl).1
        (mark_pipeline h fnmatch patterns pl).0.stages
unfolding mark_pipeline pipeline_id
mark_pipeline-reported h fnmatch patterns pl a =
    mark_all-reported h fnmatch patterns pl pl.stages refl a

-- ===== src/Formats/V2/Load/Chains.antt =====
-- osbuild/formats/v2.py: the bases of the stages in the pipelines of a loaded manifest.
use osbuild.Prelude.{
  ℕ, String, Option, none, some, List, [], ◌∷◌, if◌then◌else◌, ok, >>=-eq-ok, ◌≡◌, refl, sym, subst,
  ◌∙◌, All, Bool-cases, Option-cases, arith, inl, inr, truthy_name, ◌==◌,
}
use osbuild.Prelude.Dict
use osbuild.Prelude.Dict.{Dict}
use osbuild.Json.{Json}
use osbuild.Digest.{Digest}
use osbuild.Objects.{Runner, Pipeline, Manifest}
use osbuild.Pipeline.{pipeline_init, pipeline_id}
use osbuild.Manifest.{manifest_init, add_metadata, add_pipeline, add_source}
use osbuild.Formats.V2.{StageDesc, PipelineDesc, SourceDesc, Description}
use osbuild.Formats.V2.Refs.{options_or}
use osbuild.Formats.V2.Load.{
  Index, need_info, runner_init, load_stage, load_stages, resolve_build, load_runner, load_pipeline,
  load_pipelines, load_metadata, load_sources, source_items, runner_of, fix_runners, load,
}
use osbuild.Formats.V2.Load.Bases.{IsChain, IsChain-snoc, last_id-top, load_stage-snoc}

All-put :
    {V : Type 0} (P : V → Type 0) (k : String) (v : V) (d : Dict V)
    → All P (Dict.values d)
    → P v
    → All P (Dict.values (Dict.put k v d))
unfolding Dict.put Dict.values
All-put P k v [] a p = (p, tt)
All-put P k v ((j, w) ∷ d) a p = elim (Bool-cases (j == k)) [
  | inl same ↦ rw same (p, a.1)
  | inr other ↦ rw other (a.0, All-put P k v d a.1 p)
]

module _ (h : Digest) where
  abbrev pub HasChain : Pipeline → Type 0
  HasChain pl = IsChain h pl none pl.stages

  load_stages-HasChain :
      (index : Index) (descs : List StageDesc) (m : Manifest) (source_refs : List String)
      (pl pl' : Pipeline)
      → load_stages h index descs m source_refs pl ≡ ok pl'
      → HasChain pl
      → HasChain pl'
  unfolding load_stages pipeline_id
  load_stages-HasChain index [] m source_refs pl pl' e chain =
      let same : pl ≡ pl' = cc in subst HasChain same chain
  load_stages-HasChain index (desc ∷ rest) m source_refs pl pl' e chain =
      let (next, first, later) = >>=-eq-ok (load_stage h index desc m source_refs pl) _ e in
      let (s, made, same) = load_stage-snoc h index desc m source_refs pl next first in
      load_stages-HasChain index rest m source_refs next pl' later (
        subst HasChain (sym same) (
          IsChain-snoc h pl none pl.stages s chain
            (made.0, made.1 ∙ last_id-top h pl.stages, made.2)))

  abbrev pub AllChain : Manifest → Type 0
  AllChain m = All HasChain (Dict.values m.pipelines)

  add_pipeline-AllChain :
      (name : String) (runner : Runner) (build : Option String) (epoch : Option ℕ) (m m' : Manifest)
      → add_pipeline name runner build epoch m ≡ ok m'
      → AllChain m
      → AllChain m'
  unfolding add_pipeline pipeline_init
  add_pipeline-AllChain name runner build epoch m m' e a =
      elim (Bool-cases (Dict.has name m.pipelines)) [
        | inl taken ↦ let never = (rw taken at e) in cc
        | inr new ↦
            let added : Manifest = record m {
              pipelines = Dict.put name (pipeline_init name runner build epoch) m.pipelines;
            } in
            let done : ok added ≡ ok m' = (rw new at e) in
            let same : added ≡ m' = cc in
            subst AllChain same
              (All-put HasChain name (pipeline_init name runner build epoch) m.pipelines a tt)
      ]

  load_pipeline-AllChain :
      (index : Index) (desc : PipelineDesc) (source_refs : List String) (m m' : Manifest)
      → load_pipeline h index desc source_refs m ≡ ok m'
      → AllChain m
      → AllChain m'
  unfolding load_pipeline pipeline_init
  load_pipeline-AllChain index desc source_refs m m' e a =
      let (build, built, e₁) = >>=-eq-ok (resolve_build h desc.build m) _ e in
      let (runner, ran, e₂) = >>=-eq-ok (load_runner h index desc.runner) _ e₁ in
      let (added, new, e₃) =
        >>=-eq-ok (add_pipeline desc.name runner build desc.source_epoch m) _ e₂ in
      let start = pipeline_init desc.name runner build desc.source_epoch in
      let (pl, loaded, e₄) =
        >>=-eq-ok (load_stages h index desc.stages added source_refs start) _ e₃ in
      let same : record added { pipelines = Dict.put desc.name pl added.pipelines } ≡ m' = cc in
      subst AllChain same (
        All-put HasChain desc.name pl added.pipelines
          (add_pipeline-AllChain desc.name runner build desc.source_epoch m added new a)
          (load_stages-HasChain index desc.stages added source_refs start pl loaded tt))

  load_pipelines-AllChain :
      (index : Index) (descs : List PipelineDesc) (source_refs : List String) (m m' : Manifest)
      → load_pipelines h index descs source_refs m ≡ ok m'
      → AllChain m
      → AllChain m'
  unfolding load_pipelines
  load_pipelines-AllChain index [] source_refs m m' e a =
      let same : m ≡ m' = cc in subst AllChain same a
  load_pipelines-AllChain index (desc ∷ rest) source_refs m m' e a =
      let (next, first, later) = >>=-eq-ok (load_pipeline h index desc source_refs m) _ e in
      load_pipelines-AllChain index rest source_refs next m' later
        (load_pipeline-AllChain index desc source_refs m next first a)

  pub load_metadata-pipelines :
      (d : Dict Json) (m : Manifest) → (load_metadata h d m).pipelines ≡ m.pipelines
  unfolding load_metadata add_metadata
  load_metadata-pipelines [] m = refl
  load_metadata-pipelines ((k, v) ∷ d) m = load_metadata-pipelines d (add_metadata k v m)

  pub load_sources-pipelines :
      (index : Index) (ds : Dict SourceDesc) (m m' : Manifest)
      → load_sources h index ds m ≡ ok m'
      → m'.pipelines ≡ m.pipelines
  unfolding load_sources add_source
  load_sources-pipelines index [] m m' e = ground arith
  load_sources-pipelines index ((name, desc) ∷ rest) m m' e =
      let (info, found, later) = >>=-eq-ok (need_info (index.module_info "Source" name)) _ e in
      load_sources-pipelines index rest (add_source info desc.items (options_or desc.options) m) m'
        later

  -- Another runner changes nothing of the stages.
  fix_runners-HasChain :
      (host_runner : Runner) (all : List Pipeline) (d d' : Dict Pipeline)
      → fix_runners h host_runner all d ≡ ok d'
      → All HasChain (Dict.values d)
      → All HasChain (Dict.values d')
  unfolding fix_runners Dict.values
  fix_runners-HasChain host_runner all [] d' e a =
      let same : [] ≡ d' = cc in subst (λ l. All HasChain (Dict.values l)) same tt
  fix_runners-HasChain host_runner all ((name, pl) ∷ rest) d' e a =
      elim (Option-cases
        (if truthy_name pl.build then runner_of h pl.build all else some host_runner)) [
          | inl missing ↦ let never = (rw (missing, fix_runners) at e) in cc
          | inr (r, found) ↦
              let (rest', fixed, done) =
                >>=-eq-ok (fix_runners h host_runner all rest)
                  (λ l. ok ((name, record pl { runner = r }) ∷ l)) (rw (found, fix_runners) at e) in
              let same : (name, record pl { runner = r }) ∷ rest' ≡ d' = cc in
              subst (λ l. All HasChain (Dict.values l)) same
                (a.0, fix_runners-HasChain host_runner all rest rest' fixed a.1)
        ]

  no_pipelines : (m : Manifest) → m.pipelines ≡ [] → AllChain m
  unfolding Dict.values
  no_pipelines m empty = subst (λ d. All HasChain (Dict.values d)) (sym empty) tt

  -- In every pipeline of a manifest that `load` returns, each stage has the build pipeline and the
  -- source epoch of its pipeline, and its base is the id of the stage before it, or none for the first.
  pub load-AllChain :
      (description : Description) (index : Index) (m : Manifest)
      → load h description index ≡ ok m
      → AllChain m
  unfolding load
  load-AllChain description index m e =
      let start = load_metadata h description.metadata manifest_init in
      let (with_sources, sourced, e₁) =
        >>=-eq-ok (load_sources h index description.sources start) _ e in
      let (loaded, piped, e₂) =
        >>=-eq-ok
          (load_pipelines h index description.pipelines (source_items h description.sources)
            with_sources)
          _ e₁ in
      let (path, detected, e₃) = >>=-eq-ok index.detect_host_runner _ e₂ in
      let (pipelines, fixed, e₄) =
        >>=-eq-ok
          (fix_runners h (runner_init index path none) (Dict.values loaded.pipelines)
            loaded.pipelines)
          _ e₃ in
      let empty : with_sources.pipelines ≡ [] =
        load_sources-pipelines index description.sources start with_sources sourced
        ∙ load_metadata-pipelines description.metadata manifest_init in
      let same : record loaded { pipelines = pipelines } ≡ m = cc in
      subst AllChain same (
        fix_runners-HasChain (runner_init index path none) (Dict.values loaded.pipelines)
          loaded.pipelines pipelines fixed
          (load_pipelines-AllChain index description.pipelines (source_items h description.sources)
            with_sources loaded piped (no_pipelines with_sources empty)))

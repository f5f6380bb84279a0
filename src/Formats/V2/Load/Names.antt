-- ===== src/Formats/V2/Load/Names.antt =====
-- osbuild/formats/v2.py: the names of the pipelines of a loaded manifest.
use mathlib.Core.List.{append_assoc, append-nil}
use osbuild.Prelude.{
  ℕ, String, ◌==◌, eq_refl, true, false, Option, none, some, List, [], ◌∷◌, ◌++◌, map,
  if◌then◌else◌, ok, >>=-eq-ok, ◌≡◌, refl, sym, ap, ◌∙◌, Bool-cases, Option-cases, inl, inr,
  truthy_name,
}
use osbuild.Prelude.Dict
use osbuild.Prelude.Dict.{Dict, has-put}
use osbuild.Digest.{Digest}
use osbuild.Objects.{Runner, Pipeline, Manifest}
use osbuild.Pipeline.{pipeline_init}
use osbuild.Manifest.{manifest_init, add_pipeline}
use osbuild.Formats.V2.{PipelineDesc, Description}
use osbuild.Formats.V2.Load.{
  Index, runner_init, load_stages, resolve_build, load_runner, load_pipeline, load_pipelines,
  load_metadata, load_sources, source_items, runner_of, fix_runners, load,
}
use osbuild.Formats.V2.Load.Chains.{load_metadata-pipelines, load_sources-pipelines}

module _ {V : Type 0} where
  pub keys-put_new :
      (k : String) (v : V) (d : Dict V)
      → Dict.has k d ≡ false
      → Dict.keys (Dict.put k v d) ≡ Dict.keys d ++ k ∷ []
  unfolding Dict.has Dict.put Dict.keys
  keys-put_new k v [] new = refl
  keys-put_new k v ((j, w) ∷ d) new = elim (Bool-cases (j == k)) [
    | inl same ↦ let never = (rw same at new) in cc
    | inr other ↦ rw other (ap (λ l. j ∷ l) (keys-put_new k v d (rw other at new)))
  ]

  pub keys-put_old :
      (k : String) (v : V) (d : Dict V)
      → Dict.has k d ≡ true
      → Dict.keys (Dict.put k v d) ≡ Dict.keys d
  unfolding Dict.has Dict.put Dict.keys
  keys-put_old k v [] there = cc
  keys-put_old k v ((j, w) ∷ d) there = elim (Bool-cases (j == k)) [
    | inl same ↦ rw same refl
    | inr other ↦ rw other (ap (λ l. j ∷ l) (keys-put_old k v d (rw other at there)))
  ]

  pub has-put_self : (k : String) (v : V) (d : Dict V) → Dict.has k (Dict.put k v d) ≡ true
  has-put_self k v d = simp (has-put, eq_refl)

pub add_pipeline-put :
    (name : String) (runner : Runner) (build : Option String) (epoch : Option ℕ) (m m' : Manifest)
    → add_pipeline name runner build epoch m ≡ ok m'
    → (Dict.has name m.pipelines ≡ false)
      × (m'.pipelines ≡ Dict.put name (pipeline_init name runner build epoch) m.pipelines)
unfolding add_pipeline
add_pipeline-put name runner build epoch m m' e = elim (Bool-cases (Dict.has name m.pipelines)) [
  | inl taken ↦ let never = (rw taken at e) in cc
  | inr new ↦
      let added : Manifest = record m {
        pipelines = Dict.put name (pipeline_init name runner build epoch) m.pipelines;
      } in
      let done : ok added ≡ ok m' = (rw new at e) in
      let same : added ≡ m' = cc in (new, ap (λ (n : Manifest). n.pipelines) (sym same))
]

module _ (h : Digest) where
  load_pipeline-keys :
      (index : Index) (desc : PipelineDesc) (source_refs : List String) (m m' : Manifest)
      → load_pipeline h index desc source_refs m ≡ ok m'
      → Dict.keys m'.pipelines ≡ Dict.keys m.pipelines ++ desc.name ∷ []
  unfolding load_pipeline
  load_pipeline-keys index desc source_refs m m' e =
      let (build, built, e₁) = >>=-eq-ok (resolve_build h desc.build m) _ e in
      let (runner, ran, e₂) = >>=-eq-ok (load_runner h index desc.runner) _ e₁ in
      let (added, new, e₃) =
        >>=-eq-ok (add_pipeline desc.name runner build desc.source_epoch m) _ e₂ in
      let start = pipeline_init desc.name runner build desc.source_epoch in
      let (pl, loaded, e₄) =
        >>=-eq-ok (load_stages h index desc.stages added source_refs start) _ e₃ in
      let same : record added { pipelines = Dict.put desc.name pl added.pipelines } ≡ m' = cc in
      let (free_name, put_) =
        add_pipeline-put desc.name runner build desc.source_epoch m added new in
      let there : Dict.has desc.name added.pipelines ≡ true =
        rw put_ (has-put_self desc.name start m.pipelines) in
      ap (λ (n : Manifest). Dict.keys n.pipelines) (sym same)
      ∙ keys-put_old desc.name pl added.pipelines there
      ∙ ap Dict.keys put_
      ∙ keys-put_new desc.name start m.pipelines free_name

  load_pipelines-keys :
      (index : Index) (descs : List PipelineDesc) (source_refs : List String) (m m' : Manifest)
      → load_pipelines h index descs source_refs m ≡ ok m'
      → Dict.keys m'.pipelines ≡ Dict.keys m.pipelines ++ map (λ d. d.name) descs
  unfolding load_pipelines
  load_pipelines-keys index [] source_refs m m' e =
      let same : m ≡ m' = cc in
      ap (λ (n : Manifest). Dict.keys n.pipelines) (sym same)
      ∙ sym (append-nil (Dict.keys m.pipelines))
  load_pipelines-keys index (desc ∷ rest) source_refs m m' e =
      let (next, first, later) = >>=-eq-ok (load_pipeline h index desc source_refs m) _ e in
      load_pipelines-keys index rest source_refs next m' later
      ∙ ap (λ l. l ++ map (λ d. d.name) rest)
          (load_pipeline-keys index desc source_refs m next first)
      ∙ append_assoc (Dict.keys m.pipelines) (desc.name ∷ []) (map (λ d. d.name) rest)

  fix_runners-keys :
      (host_runner : Runner) (all : List Pipeline) (d d' : Dict Pipeline)
      → fix_runners h host_runner all d ≡ ok d'
      → Dict.keys d' ≡ Dict.keys d
  unfolding fix_runners Dict.keys
  fix_runners-keys host_runner all [] d' e = let same : [] ≡ d' = cc in ap Dict.keys (sym same)
  fix_runners-keys host_runner all ((name, pl) ∷ rest) d' e =
      elim (Option-cases
        (if truthy_name pl.build then runner_of h pl.build all else some host_runner)) [
          | inl missing ↦ let never = (rw (missing, fix_runners) at e) in cc
          | inr (r, found) ↦
              let (rest', fixed, done) =
                >>=-eq-ok (fix_runners h host_runner all rest)
                  (λ l. ok ((name, record pl { runner = r }) ∷ l)) (rw (found, fix_runners) at e) in
              let same : (name, record pl { runner = r }) ∷ rest' ≡ d' = cc in
              ap Dict.keys (sym same)
              ∙ ap (λ l. name ∷ l) (fix_runners-keys host_runner all rest rest' fixed)
        ]

  -- The pipelines of a manifest that `load` returns have the names of the description's, in its order.
  pub load-keys :
      (description : Description) (index : Index) (m : Manifest)
      → load h description index ≡ ok m
      → Dict.keys m.pipelines ≡ map (λ d. d.name) description.pipelines
  unfolding load Dict.keys
  load-keys description index m e =
      let start = load_metadata h description.metadata manifest_init in
      let (with_sources, sourced, e₁) =
        >>=-eq-ok (load_sources h index description.sources start) _ e in
      let (loaded, piped, e₂) =
        >>=-eq-ok
          (load_pipelines h index description.pipelines (source_items h description.sources)
            with_sources)
          _ e₁ in
      let (path, detected, e₃) = >>=-eq-ok index.detect_host_runner _ e₂ in
      let (pipelines, fixed, e₄) =
        >>=-eq-ok
          (fix_runners h (runner_init index path none) (Dict.values loaded.pipelines)
            loaded.pipelines)
          _ e₃ in
      let empty : with_sources.pipelines ≡ [] =
        load_sources-pipelines h index description.sources start with_sources sourced
        ∙ load_metadata-pipelines h description.metadata manifest_init in
      let same : record loaded { pipelines = pipelines } ≡ m = cc in
      ap (λ (n : Manifest). Dict.keys n.pipelines) (sym same)
      ∙ fix_runners-keys (runner_init index path none) (Dict.values loaded.pipelines)
          loaded.pipelines pipelines fixed
      ∙ load_pipelines-keys index description.pipelines (source_items h description.sources)
          with_sources loaded piped
      ∙ ap
          (λ (d : Dict Pipeline).
            Dict.keys d ++ map (λ (p : PipelineDesc). p.name) description.pipelines)
          empty

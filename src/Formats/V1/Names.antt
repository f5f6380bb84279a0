-- ===== src/Formats/V1/Names.antt =====
-- osbuild/formats/v1.py: the pipelines that a description of the first version makes.
use mathlib.Core.List.{append_assoc, append-nil}
use osbuild.Prelude.{
  ℕ, suc, String, Option, none, some, List, [], ◌∷◌, ◌++◌, ok, >>=-eq-ok, ◌≡◌, refl, sym, ap, ◌∙◌,
}
use osbuild.Prelude.Dict
use osbuild.Prelude.Dict.{Dict}
use osbuild.Json.{Json, obj, fields}
use osbuild.Json.Reads.{item}
use osbuild.Digest.{Digest}
use osbuild.Objects.{Stage, Runner, Pipeline, Manifest}
use osbuild.Pipeline.{pipeline_id, pipeline_init}
use osbuild.Manifest.{manifest_init, get_item, add_pipeline, add_source}
use osbuild.Formats.V2.Load.{Index, need_info, runner_init}
use osbuild.Formats.V2.Load.Names.{keys-put_new, keys-put_old, has-put_self, add_pipeline-put}
use osbuild.Formats.V1.{
  StageDesc, PipelineDesc, on_host, on_runner, on_build, Description, assembler_of, pipeline_name,
  load_stages, fill_pipeline, load_pipeline, load_assembler, assembler_pipeline, assembler_stage,
  put_assembler, load_source, load_sources, load_if, share_sources, load, source_type, items_key,
  dict_of,
}

-- The names of a pipeline's build pipelines, the innermost first, and of the pipeline itself.
unfoldable pub pipeline_names : PipelineDesc → ℕ → List String
pipeline_names (on_host stages assembler) n = pipeline_name n ∷ []
pipeline_names (on_runner runner stages assembler) n = pipeline_name n ∷ []
pipeline_names (on_build build runner stages assembler) n =
    pipeline_names build (suc n) ++ pipeline_name n ∷ []

abbrev pub assembler_names : Option StageDesc → List String
assembler_names none = []
assembler_names (some desc) = "assembler" ∷ []

put_twice-keys :
    (name : String) (runner : Runner) (build : Option String) (pl : Pipeline) (m m' : Manifest)
    → add_pipeline name runner build none m ≡ ok m'
    → Dict.keys (Dict.put name pl m'.pipelines) ≡ Dict.keys m.pipelines ++ name ∷ []
put_twice-keys name runner build pl m m' e =
    let (new, added) = add_pipeline-put name runner build none m m' e in
    let start = pipeline_init name runner build none in
    rw added (
      keys-put_old name pl (Dict.put name start m.pipelines) (has-put_self name start m.pipelines)
      ∙ keys-put_new name start m.pipelines new)

module _ (h : Digest) (index : Index) where
  fill_pipeline-keys :
      (name : String) (runner : Runner) (build : Option String) (stages : List StageDesc)
      (pl : Pipeline) (m m' : Manifest)
      → fill_pipeline h index name runner build stages m ≡ ok (pl, m')
      → Dict.keys m'.pipelines ≡ Dict.keys m.pipelines ++ name ∷ []
  unfolding fill_pipeline
  fill_pipeline-keys name runner build stages pl m m' e =
      let (added, new, e₁) = >>=-eq-ok (add_pipeline name runner build none m) _ e in
      let (pl', loaded, e₂) =
        >>=-eq-ok (load_stages h index stages (pipeline_init name runner build none)) _ e₁ in
      let same : record added { pipelines = Dict.put name pl' added.pipelines } ≡ m' = cc in
      ap (λ (n : Manifest). Dict.keys n.pipelines) (sym same)
      ∙ put_twice-keys name runner build pl' m added new

  load_pipeline-keys :
      (desc : PipelineDesc) (n : ℕ) (pl : Pipeline) (m m' : Manifest)
      → load_pipeline h index desc n m ≡ ok (pl, m')
      → Dict.keys m'.pipelines ≡ Dict.keys m.pipelines ++ pipeline_names desc n
  unfolding load_pipeline pipeline_names
  load_pipeline-keys (on_host stages assembler) n pl m m' e =
      let (path, ran, e₁) = >>=-eq-ok index.detect_host_runner _ e in
      fill_pipeline-keys (pipeline_name n) (runner_init index path none) none stages pl m m' e₁
  load_pipeline-keys (on_runner runner stages assembler) n pl m m' e =
      let (path, ran, e₁) = >>=-eq-ok (index.detect_runner runner) _ e in
      fill_pipeline-keys (pipeline_name n) (runner_init index path (some runner)) none stages pl m
        m' e₁
  load_pipeline-keys (on_build build runner stages assembler) n pl m m' e =
      let ((bp, m₁), built, e₁) = >>=-eq-ok (load_pipeline h index build (suc n) m) _ e in
      let (path, ran, e₂) = >>=-eq-ok (index.detect_runner runner) _ e₁ in
      fill_pipeline-keys (pipeline_name n) (runner_init index path (some runner)) (pipeline_id h bp)
        stages pl m₁ m' e₂
      ∙ ap (λ l. l ++ pipeline_name n ∷ []) (load_pipeline-keys build (suc n) bp m m₁ built)
      ∙ append_assoc (Dict.keys m.pipelines) (pipeline_names build (suc n)) (pipeline_name n ∷ [])

  assembled-keys :
      (tree : Pipeline) (stage : Stage) (m added m' : Manifest)
      → add_pipeline "assembler" tree.runner tree.build none m ≡ ok added
      → ok (put_assembler h index tree stage added) ≡ ok m'
      → Dict.keys m'.pipelines ≡ Dict.keys m.pipelines ++ "assembler" ∷ []
  assembled-keys tree stage m added m' new e =
      let same : put_assembler h index tree stage added ≡ m' = cc in
      ap (λ (n : Manifest). Dict.keys n.pipelines) (sym same)
      ∙ put_twice-keys "assembler" tree.runner tree.build
          (record (assembler_pipeline h index tree) { stages = stage ∷ [] }) m added new

  load_if-keys :
      (desc : Option StageDesc) (m m' : Manifest)
      → load_if h index desc m ≡ ok m'
      → Dict.keys m'.pipelines ≡ Dict.keys m.pipelines ++ assembler_names desc
  unfolding load_assembler
  load_if-keys none m m' e =
      let same : m ≡ m' = cc in
      ap (λ (n : Manifest). Dict.keys n.pipelines) (sym same)
      ∙ sym (append-nil (Dict.keys m.pipelines))
  load_if-keys (some desc) m m' e =
      let (tree, found, e₁) = >>=-eq-ok (get_item h m (some "tree")) _ e in
      let (added, new, e₂) =
        >>=-eq-ok (add_pipeline "assembler" tree.runner tree.build none m) _ e₁ in
      let (stage, made, e₃) = >>=-eq-ok (assembler_stage h index desc tree) _ e₂ in
      assembled-keys tree stage m added m' new e₃

  load_source-pipelines :
      (name : String) (desc : Json) (m m' : Manifest)
      → load_source h index name desc m ≡ ok m'
      → m'.pipelines ≡ m.pipelines
  unfolding load_source add_source
  load_source-pipelines name desc m m' e =
      let (key, known, e₁) = >>=-eq-ok (items_key (source_type name)) _ e in
      let (listed, there, e₂) = >>=-eq-ok (item key desc) _ e₁ in
      let (items, read, e₃) = >>=-eq-ok (dict_of listed) _ e₂ in
      let (info, found, e₄) =
        >>=-eq-ok (need_info (index.module_info "Source" (source_type name))) _ e₃ in
      let same : add_source info items desc m ≡ m' = cc in
      ap (λ (n : Manifest). n.pipelines) (sym same)

  load_sources-pipelines :
      (sources : Dict Json) (m m' : Manifest)
      → load_sources h index sources m ≡ ok m'
      → m'.pipelines ≡ m.pipelines
  unfolding load_sources
  load_sources-pipelines [] m m' e =
      let same : m ≡ m' = cc in ap (λ (n : Manifest). n.pipelines) (sym same)
  load_sources-pipelines ((name, desc) ∷ rest) m m' e =
      let (m₁, one, e₁) = >>=-eq-ok (load_source h index name desc m) _ e in
      load_sources-pipelines rest m₁ m' e₁ ∙ load_source-pipelines name desc m m₁ one

  share_sources-keys :
      (sources : Json) (d : Dict Pipeline)
      → Dict.keys (share_sources h index sources d) ≡ Dict.keys d
  unfolding share_sources Dict.keys
  share_sources-keys sources [] = refl
  share_sources-keys sources ((name, pl) ∷ rest) =
      ap (λ l. name ∷ l) (share_sources-keys sources rest)

  shared-keys :
      (desc : Description) (m₂ m₃ m : Manifest)
      → load_sources h index desc.sources m₂ ≡ ok m₃
      → ok
          (record m₃ { pipelines = share_sources h index (obj (fields desc.sources)) m₃.pipelines })
        ≡ ok m
      → Dict.keys m.pipelines ≡ Dict.keys m₂.pipelines
  shared-keys desc m₂ m₃ m sourced e =
      let same : record m₃ {
        pipelines = share_sources h index (obj (fields desc.sources)) m₃.pipelines;
      }
          ≡ m =
        cc in
      ap (λ (n : Manifest). Dict.keys n.pipelines) (sym same)
      ∙ share_sources-keys (obj (fields desc.sources)) m₃.pipelines
      ∙ ap Dict.keys (load_sources-pipelines desc.sources m₂ m₃ sourced)

  -- The manifest that `load` returns has the pipelines of the description, and no others, in the order
  -- in which they are built: the build pipelines, the innermost first, then the tree, then the
  -- assembler if there is one.
  pub load-pipeline_names :
      (desc : Description) (m : Manifest)
      → load h index desc ≡ ok m
      → Dict.keys m.pipelines
        ≡ pipeline_names desc.pipeline 0 ++ assembler_names (assembler_of desc.pipeline)
  unfolding load Dict.keys
  load-pipeline_names desc m e =
      let ((pl, m₁), loaded, e₁) =
        >>=-eq-ok (load_pipeline h index desc.pipeline 0 manifest_init) _ e in
      let (m₂, assembled, e₂) = >>=-eq-ok (load_if h index (assembler_of desc.pipeline) m₁) _ e₁ in
      let (m₃, sourced, e₃) = >>=-eq-ok (load_sources h index desc.sources m₂) _ e₂ in
      shared-keys desc m₂ m₃ m sourced e₃
      ∙ load_if-keys (assembler_of desc.pipeline) m₁ m₂ assembled
      ∙ ap (λ l. l ++ assembler_names (assembler_of desc.pipeline))
          (load_pipeline-keys desc.pipeline 0 pl manifest_init m₁ loaded)

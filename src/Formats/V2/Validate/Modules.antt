-- ===== src/Formats/V2/Validate/Modules.antt =====
-- osbuild/formats/v2.py: the modules of a manifest, read off its description, and the walk of `validate`
-- that comes to them.
use mathlib.Core.List.{append_assoc, append-nil}
use osbuild.Prelude.{
  ℕ, suc, String, Option, none, some, List, [], ◌∷◌, ◌++◌, Result, ok, err, ◌>>=◌, >>=-eq-ok, ◌≡◌,
  refl, sym, ap, ◌∙◌,
}
use osbuild.Prelude.Dict.{Dict}
use osbuild.Json.{Json, arr, obj, Items, nil, cons, end}
use osbuild.Json.Reads.{item, get, items_of, elements, or_default}
use osbuild.Meta.Schemas.{Step, key, position}
use osbuild.Formats.V2.Validate.{
  text_of, module_name, module_items, check_named, validate_module, validate_modules,
  validate_stage_modules, validate_stage, validate_stages, validate_pipeline, validate_pipelines,
  validate_sources, walk,
}

-- A module of a manifest: its class, its name and its description.
abbrev pub Module : Type 0
Module = String × String × Json

abbrev value_or : {A : Type 0} → A → Result A → A
value_or default (ok a) = a
value_or default (err e) = default

abbrev typed : String → Json → Option String → List Module
typed klass j none = []
typed klass j (some name) = (klass, name, j) ∷ []

-- Those of one class, where a description without a type is none.
unfoldable modules_in : String → Dict Json → List Module
modules_in klass [] = []
modules_in klass ((name, j) ∷ rest) =
    typed klass j (value_or none (get "type" j >>= module_name)) ++ modules_in klass rest

abbrev group_modules : String → String → Json → List Module
group_modules klass group stage =
    modules_in klass
      (value_or [] (get group stage >>= λ found. module_items (or_default (obj end) found)))

-- A stage itself, its devices, its inputs and its mounts.
abbrev stage_modules : Json → List Module
stage_modules stage =
    ("Stage", value_or "" (item "type" stage >>= text_of), stage)
    ∷ (group_modules "Device" "devices" stage
        ++ (group_modules "Input" "inputs" stage ++ group_modules "Mount" "mounts" stage))

unfoldable stages_modules : Items → List Module
unfolding modules_in
stages_modules nil = []
stages_modules (cons stage rest) = stage_modules stage ++ stages_modules rest

abbrev pipeline_modules : Json → List Module
pipeline_modules pipeline =
    stages_modules
      (value_or nil (get "stages" pipeline >>= λ found. elements (or_default (arr nil) found)))

unfoldable pipelines_modules : Items → List Module
unfolding stages_modules
pipelines_modules nil = []
pipelines_modules (cons pipeline rest) = pipeline_modules pipeline ++ pipelines_modules rest

unfoldable source_modules : Dict Json → List Module
source_modules [] = []
source_modules ((name, j) ∷ rest) = ("Source", name, j) ∷ source_modules rest

-- All modules of a manifest: its sources, and for each pipeline those of its stages.
unfoldable pub modules_of : Json → List Module
unfolding source_modules pipelines_modules
modules_of manifest =
    source_modules
      (value_or [] (get "sources" manifest >>= λ found. items_of (or_default (obj end) found)))
    ++ pipelines_modules
        (value_or nil (get "pipelines" manifest >>= λ found. elements (or_default (arr nil) found)))

abbrev pub list_module : String → String → List Step → Json → List Module → Result (List Module)
list_module klass name path j found = ok (found ++ (klass, name, j) ∷ [])

step_append : (xs a b ys zs : List Module) → ys ≡ xs ++ a → zs ≡ ys ++ b → zs ≡ xs ++ (a ++ b)
step_append xs a b ys zs e e' = e' ∙ ap (λ l. l ++ b) e ∙ append_assoc xs a b

named_adds :
    (klass : String) (path : List Step) (j : Json) (name : Option String)
    (found found' : List Module)
    → check_named list_module klass path j name found ≡ ok found'
    → found' ≡ found ++ typed klass j name
named_adds klass path j none found found' e =
    let same : found ≡ found' = cc in sym same ∙ sym (append-nil found)
named_adds klass path j (some name) found found' e = cc

validate_modules-modules_in :
    (klass group : String) (path : List Step) (items : Dict Json) (found found' : List Module)
    → validate_modules list_module klass group path items found ≡ ok found'
    → found' ≡ found ++ modules_in klass items
unfolding validate_modules validate_module modules_in
validate_modules-modules_in klass group path [] found found' e =
    let same : found ≡ found' = cc in sym same ∙ sym (append-nil found)
validate_modules-modules_in klass group path ((name, j) ∷ rest) found found' e =
    let here = path ++ key group ∷ key name ∷ [] in
    let (found₁, one, e₁) = >>=-eq-ok (validate_module list_module klass here j found) _ e in
    let (kind, got, e₂) = >>=-eq-ok (get "type" j) _ one in
    let (type_, read, e₃) = >>=-eq-ok (module_name kind) _ e₂ in
    rw (got, read)
      (step_append found (typed klass j type_) (modules_in klass rest) found₁ found'
        (named_adds klass here j type_ found found₁ e₃)
        (validate_modules-modules_in klass group path rest found₁ found' e₁))

group_adds :
    (klass group : String) (stage : Json) (path : List Step) (found found' : List Module)
    → validate_stage_modules list_module klass group stage path found ≡ ok found'
    → found' ≡ found ++ group_modules klass group stage
unfolding validate_stage_modules
group_adds klass group stage path found found' e =
    let (members, got, e₁) = >>=-eq-ok (get group stage) _ e in
    let (items, read, e₂) = >>=-eq-ok (module_items (or_default (obj end) members)) _ e₁ in
    rw (got, read) (validate_modules-modules_in klass group path items found found' e₂)

stage_adds :
    (stage : Json) (path : List Step) (found found' : List Module)
    → validate_stage list_module stage path found ≡ ok found'
    → found' ≡ found ++ stage_modules stage
unfolding validate_stage
stage_adds stage path found found' e =
    let (value, got, e₁) = >>=-eq-ok (item "type" stage) _ e in
    let (name, read, e₂) = >>=-eq-ok (text_of value) _ e₁ in
    let own = found ++ ("Stage", name, stage) ∷ [] in
    let (s₂, devs, e₄) =
      >>=-eq-ok (validate_stage_modules list_module "Device" "devices" stage path own) _ e₂ in
    let (s₃, ins, e₅) =
      >>=-eq-ok (validate_stage_modules list_module "Input" "inputs" stage path s₂) _ e₄ in
    let devices = group_modules "Device" "devices" stage in
    let inputs = group_modules "Input" "inputs" stage in
    let mounts = group_modules "Mount" "mounts" stage in
    rw (got, read)
      (step_append found (("Stage", name, stage) ∷ []) (devices ++ (inputs ++ mounts)) own found'
        refl
        (step_append own devices (inputs ++ mounts) s₂ found'
          (group_adds "Device" "devices" stage path own s₂ devs)
          (step_append s₂ inputs mounts s₃ found' (group_adds "Input" "inputs" stage path s₂ s₃ ins)
            (group_adds "Mount" "mounts" stage path s₃ found' e₅))))

stages_add :
    (path : List Step) (i : ℕ) (stages : Items) (found found' : List Module)
    → validate_stages list_module path i stages found ≡ ok found'
    → found' ≡ found ++ stages_modules stages
unfolding validate_stages stages_modules
stages_add path i nil found found' e =
    let same : found ≡ found' = cc in sym same ∙ sym (append-nil found)
stages_add path i (cons stage rest) found found' e =
    let here = path ++ key "stages" ∷ position i ∷ [] in
    let (found₁, one, e₁) = >>=-eq-ok (validate_stage list_module stage here found) _ e in
    step_append found (stage_modules stage) (stages_modules rest) found₁ found'
      (stage_adds stage here found found₁ one) (stages_add path (suc i) rest found₁ found' e₁)

pipelines_add :
    (i : ℕ) (pipelines : Items) (found found' : List Module)
    → validate_pipelines list_module i pipelines found ≡ ok found'
    → found' ≡ found ++ pipelines_modules pipelines
unfolding validate_pipelines validate_pipeline pipelines_modules
pipelines_add i nil found found' e =
    let same : found ≡ found' = cc in sym same ∙ sym (append-nil found)
pipelines_add i (cons pipeline rest) found found' e =
    let here = key "pipelines" ∷ position i ∷ [] in
    let (found₁, one, e₁) = >>=-eq-ok (validate_pipeline list_module pipeline here found) _ e in
    let (listed, got, e₂) = >>=-eq-ok (get "stages" pipeline) _ one in
    let (stages, read, e₃) = >>=-eq-ok (elements (or_default (arr nil) listed)) _ e₂ in
    rw (got, read)
      (step_append found (stages_modules stages) (pipelines_modules rest) found₁ found'
        (stages_add here 0 stages found found₁ e₃) (pipelines_add (suc i) rest found₁ found' e₁))

sources_add :
    (sources : Dict Json) (found found' : List Module)
    → validate_sources list_module sources found ≡ ok found'
    → found' ≡ found ++ source_modules sources
unfolding validate_sources source_modules
sources_add [] found found' e = let same : found ≡ found' = cc in sym same ∙ sym (append-nil found)
sources_add ((name, j) ∷ rest) found found' e =
    step_append found (("Source", name, j) ∷ []) (source_modules rest)
      (found ++ ("Source", name, j) ∷ []) found' refl
      (sources_add rest (found ++ ("Source", name, j) ∷ []) found' e)

-- A walk that only lists what it comes to lists the modules of the manifest, in their order.
pub walk-modules_of :
    (manifest : Json) (found : List Module)
    → walk list_module manifest [] ≡ ok found
    → found ≡ modules_of manifest
unfolding walk modules_of
walk-modules_of manifest found e =
    let (listed, got, e₁) = >>=-eq-ok (get "sources" manifest) _ e in
    let (sources, read, e₂) = >>=-eq-ok (items_of (or_default (obj end) listed)) _ e₁ in
    let (found₁, sourced, e₃) = >>=-eq-ok (validate_sources list_module sources []) _ e₂ in
    let (listed', got', e₄) = >>=-eq-ok (get "pipelines" manifest) _ e₃ in
    let (pipelines, read', e₅) = >>=-eq-ok (elements (or_default (arr nil) listed')) _ e₄ in
    rw (got, read, got', read')
      (step_append [] (source_modules sources) (pipelines_modules pipelines) found₁ found
        (sources_add sources [] found₁ sourced) (pipelines_add 0 pipelines found₁ found e₅))

-- ===== src/Formats/V2/Validate/Walk.antt =====
-- osbuild/formats/v2.py: the modules that `validate` comes to, and what its result says of them.
use osbuild.Prelude.{
  ℕ, suc, String, true, Option, none, some, List, [], ◌∷◌, ◌++◌, Result, ok, >>=-eq-ok, ◌≡◌, refl,
  subst,
}
use osbuild.Prelude.Dict.{Dict}
use osbuild.Json.{Json, arr, obj, Items, nil, cons, end}
use osbuild.Json.Reads.{item, get, items_of, elements, or_default}
use osbuild.Meta.Schemas.{Step, key, position}
use osbuild.Meta.Schemas.Cached.{is_module}
use osbuild.Formats.V2.Validate.{
  text_of, module_name, module_items, check_named, validate_module, validate_modules,
  validate_stage_modules, validate_stage, validate_stages, validate_pipeline, validate_pipelines,
  validate_sources, walk,
}

-- Two ways to check: where the first one raises nothing, the second does not, and the states that they
-- reach from related ones are related.
module _ {S T : Type 0} (c : String → String → List Step → Json → S → Result S)
    (d : String → String → List Step → Json → T → Result T) (R : S → T → Type 0)
    (each : (klass name : String) (path : List Step) (j : Json) (s s' : S) (t : T)
      → is_module klass ≡ true
      → R s t
      → c klass name path j s ≡ ok s'
      → (t' : T) × (d klass name path j t ≡ ok t') × R s' t') where
  abbrev Ends : S → Result T → Type 0
  Ends s' r = (t' : T) × (r ≡ ok t') × R s' t'

  Ends-same : (s s' : S) (t : T) → R s t → s ≡ s' → Ends s' (ok t)
  Ends-same s s' t r same = (t, refl, subst (λ x. R x t) same r)

  validate_module-Ends :
      (klass : String) (path : List Step) (j : Json) (s s' : S) (t : T)
      → is_module klass ≡ true
      → R s t
      → validate_module c klass path j s ≡ ok s'
      → Ends s' (validate_module d klass path j t)
  unfolding validate_module
  validate_module-Ends klass path j s s' t known r e =
      let (found, got, e₁) = >>=-eq-ok (get "type" j) _ e in
      let (name, named, e₂) = >>=-eq-ok (module_name found) _ e₁ in
      rw (got, named) (named-Ends name e₂)
    where
      named-Ends :
          (name : Option String)
          → check_named c klass path j name s ≡ ok s'
          → Ends s' (check_named d klass path j name t)
      named-Ends none e = Ends-same s s' t r (let same : s ≡ s' = cc in same)
      named-Ends (some name) e = each klass name path j s s' t known r e

  validate_modules-Ends :
      (klass group : String) (path : List Step) (items : Dict Json) (s s' : S) (t : T)
      → is_module klass ≡ true
      → R s t
      → validate_modules c klass group path items s ≡ ok s'
      → Ends s' (validate_modules d klass group path items t)
  unfolding validate_modules
  validate_modules-Ends klass group path [] s s' t known r e =
      Ends-same s s' t r (let same : s ≡ s' = cc in same)
  validate_modules-Ends klass group path ((name, j) ∷ rest) s s' t known r e =
      let here = path ++ key group ∷ key name ∷ [] in
      let (s₁, one, e₁) = >>=-eq-ok (validate_module c klass here j s) _ e in
      let (t₁, done, r₁) = validate_module-Ends klass here j s s₁ t known r one in
      rw done (validate_modules-Ends klass group path rest s₁ s' t₁ known r₁ e₁)

  validate_stage_modules-Ends :
      (klass group : String) (stage : Json) (path : List Step) (s s' : S) (t : T)
      → is_module klass ≡ true
      → R s t
      → validate_stage_modules c klass group stage path s ≡ ok s'
      → Ends s' (validate_stage_modules d klass group stage path t)
  unfolding validate_stage_modules
  validate_stage_modules-Ends klass group stage path s s' t known r e =
      let (found, got, e₁) = >>=-eq-ok (get group stage) _ e in
      let (items, read, e₂) = >>=-eq-ok (module_items (or_default (obj end) found)) _ e₁ in
      rw (got, read) (validate_modules-Ends klass group path items s s' t known r e₂)

  validate_stage-Ends :
      (stage : Json) (path : List Step) (s s' : S) (t : T)
      → R s t
      → validate_stage c stage path s ≡ ok s'
      → Ends s' (validate_stage d stage path t)
  unfolding validate_stage is_module
  validate_stage-Ends stage path s s' t r e =
      let (value, got, e₁) = >>=-eq-ok (item "type" stage) _ e in
      let (name, read, e₂) = >>=-eq-ok (text_of value) _ e₁ in
      let (s₁, own, e₃) = >>=-eq-ok (c "Stage" name path stage s) _ e₂ in
      let (t₁, own', r₁) = each "Stage" name path stage s s₁ t refl r own in
      let (s₂, devs, e₄) =
        >>=-eq-ok (validate_stage_modules c "Device" "devices" stage path s₁) _ e₃ in
      let (t₂, devs', r₂) =
        validate_stage_modules-Ends "Device" "devices" stage path s₁ s₂ t₁ refl r₁ devs in
      let (s₃, ins, e₅) =
        >>=-eq-ok (validate_stage_modules c "Input" "inputs" stage path s₂) _ e₄ in
      let (t₃, ins', r₃) =
        validate_stage_modules-Ends "Input" "inputs" stage path s₂ s₃ t₂ refl r₂ ins in
      rw (got, read, own', devs', ins')
        (validate_stage_modules-Ends "Mount" "mounts" stage path s₃ s' t₃ refl r₃ e₅)

  validate_stages-Ends :
      (path : List Step) (i : ℕ) (stages : Items) (s s' : S) (t : T)
      → R s t
      → validate_stages c path i stages s ≡ ok s'
      → Ends s' (validate_stages d path i stages t)
  unfolding validate_stages
  validate_stages-Ends path i nil s s' t r e = Ends-same s s' t r (let same : s ≡ s' = cc in same)
  validate_stages-Ends path i (cons stage rest) s s' t r e =
      let here = path ++ key "stages" ∷ position i ∷ [] in
      let (s₁, one, e₁) = >>=-eq-ok (validate_stage c stage here s) _ e in
      let (t₁, done, r₁) = validate_stage-Ends stage here s s₁ t r one in
      rw done (validate_stages-Ends path (suc i) rest s₁ s' t₁ r₁ e₁)

  validate_pipeline-Ends :
      (pipeline : Json) (path : List Step) (s s' : S) (t : T)
      → R s t
      → validate_pipeline c pipeline path s ≡ ok s'
      → Ends s' (validate_pipeline d pipeline path t)
  unfolding validate_pipeline
  validate_pipeline-Ends pipeline path s s' t r e =
      let (found, got, e₁) = >>=-eq-ok (get "stages" pipeline) _ e in
      let (stages, read, e₂) = >>=-eq-ok (elements (or_default (arr nil) found)) _ e₁ in
      rw (got, read) (validate_stages-Ends path 0 stages s s' t r e₂)

  validate_pipelines-Ends :
      (i : ℕ) (pipelines : Items) (s s' : S) (t : T)
      → R s t
      → validate_pipelines c i pipelines s ≡ ok s'
      → Ends s' (validate_pipelines d i pipelines t)
  unfolding validate_pipelines
  validate_pipelines-Ends i nil s s' t r e = Ends-same s s' t r (let same : s ≡ s' = cc in same)
  validate_pipelines-Ends i (cons pipeline rest) s s' t r e =
      let here = key "pipelines" ∷ position i ∷ [] in
      let (s₁, one, e₁) = >>=-eq-ok (validate_pipeline c pipeline here s) _ e in
      let (t₁, done, r₁) = validate_pipeline-Ends pipeline here s s₁ t r one in
      rw done (validate_pipelines-Ends (suc i) rest s₁ s' t₁ r₁ e₁)

  validate_sources-Ends :
      (sources : Dict Json) (s s' : S) (t : T)
      → R s t
      → validate_sources c sources s ≡ ok s'
      → Ends s' (validate_sources d sources t)
  unfolding validate_sources is_module
  validate_sources-Ends [] s s' t r e = Ends-same s s' t r (let same : s ≡ s' = cc in same)
  validate_sources-Ends ((name, source) ∷ rest) s s' t r e =
      let here = key "sources" ∷ key name ∷ [] in
      let (s₁, one, e₁) = >>=-eq-ok (c "Source" name here source s) _ e in
      let (t₁, done, r₁) = each "Source" name here source s s₁ t refl r one in
      rw done (validate_sources-Ends rest s₁ s' t₁ r₁ e₁)

  -- The whole walk keeps two ways to check related.
  pub walk-Ends :
      (manifest : Json) (s s' : S) (t : T)
      → R s t
      → walk c manifest s ≡ ok s'
      → Ends s' (walk d manifest t)
  unfolding walk
  walk-Ends manifest s s' t r e =
      let (found, got, e₁) = >>=-eq-ok (get "sources" manifest) _ e in
      let (sources, read, e₂) = >>=-eq-ok (items_of (or_default (obj end) found)) _ e₁ in
      let (s₁, sourced, e₃) = >>=-eq-ok (validate_sources c sources s) _ e₂ in
      let (t₁, sourced', r₁) = validate_sources-Ends sources s s₁ t r sourced in
      let (found', got', e₄) = >>=-eq-ok (get "pipelines" manifest) _ e₃ in
      let (pipelines, read', e₅) = >>=-eq-ok (elements (or_default (arr nil) found')) _ e₄ in
      rw (got, read, sourced', got', read') (validate_pipelines-Ends 0 pipelines s₁ s' t₁ r₁ e₅)

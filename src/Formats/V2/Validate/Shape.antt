-- ===== src/Formats/V2/Validate/Shape.antt =====
-- osbuild/formats/v2.py: the shape of a manifest over which the walk of `validate` raises nothing by itself.
use osbuild.Prelude.{
  ℕ, suc, String, ◌==◌, true, Option, none, some, List, [], ◌∷◌, ◌++◌, Result, ok, ◌≡◌, refl, ◌⊎◌,
  inl, inr, Bool-cases, All,
}
use osbuild.Prelude.Dict
use osbuild.Prelude.Dict.{Dict}
use osbuild.Json.{Json, str, arr, obj, Items, nil, cons, Fields, end}
use osbuild.Json.Reads.{item, find, get, entries, items_of, elements, or_default}
use osbuild.Meta.Schemas.{Step, key, position}
use osbuild.Meta.Schemas.Cached.{is_module}
use osbuild.Formats.V2.Validate.{
  named_items, validate_module, validate_modules, validate_stage_modules, validate_stage,
  validate_stages, validate_pipeline, validate_pipelines, validate_sources, walk,
}

abbrev AllItems : (Json → Type 0) → Items → Type 0
AllItems P nil = Unit
AllItems P (cons j js) = P j × AllItems P js

abbrev AllEntries : (Json → Type 0) → Dict Json → Type 0
AllEntries P = All (λ e. P e.1)

abbrev HasText : String → Fields → Type 0
HasText k fs = (s : String) × (find k fs ≡ some (str s))

abbrev IsTyped : Fields → Type 0
IsTyped fs = (find "type" fs ≡ none) ⊎ HasText "type" fs

-- A device, an input or a mount: an object whose type, if it has one, is a text.
abbrev IsPart : Json → Type 0
IsPart j = (fs : Fields) × (j ≡ obj fs) × IsTyped fs

abbrev IsNamedPart : Json → Type 0
IsNamedPart j = (fs : Fields) × (j ≡ obj fs) × HasText "name" fs × IsTyped fs

-- The devices, inputs or mounts of a stage: none, an object with them, or a list of ones with names.
abbrev AreParts : Option Json → Type 0
AreParts found =
    (found ≡ none)
    ⊎ (((gs : Fields) × (found ≡ some (obj gs)) × AllEntries IsPart (entries gs))
        ⊎ ((js : Items) × (found ≡ some (arr js)) × AllItems IsNamedPart js))

abbrev IsStage : Json → Type 0
IsStage j =
    (fs : Fields) × (j ≡ obj fs)
    × HasText "type" fs
    × AreParts (find "devices" fs)
    × AreParts (find "inputs" fs)
    × AreParts (find "mounts" fs)

abbrev AreStages : Option Json → Type 0
AreStages found = (found ≡ none) ⊎ ((js : Items) × (found ≡ some (arr js)) × AllItems IsStage js)

abbrev IsPipeline : Json → Type 0
IsPipeline j = (fs : Fields) × (j ≡ obj fs) × AreStages (find "stages" fs)

-- What the walk needs of a manifest.
abbrev pub IsManifest : Json → Type 0
IsManifest j =
    (fs : Fields) × (j ≡ obj fs)
    × ((find "sources" fs ≡ none) ⊎ ((gs : Fields) × (find "sources" fs ≡ some (obj gs))))
    × ((find "pipelines" fs ≡ none)
        ⊎ ((js : Items) × (find "pipelines" fs ≡ some (arr js)) × AllItems IsPipeline js))

AllEntries-put :
    (P : Json → Type 0) (k : String) (j : Json) (d : Dict Json)
    → P j
    → AllEntries P d
    → AllEntries P (Dict.put k j d)
unfolding Dict.put
AllEntries-put P k j [] p all = (p, tt)
AllEntries-put P k j ((i, w) ∷ d) p (q, all) = elim (Bool-cases (i == k)) [
  | inl same ↦ rw same (p, all)
  | inr differ ↦ rw differ (q, AllEntries-put P k j d p all)
]

named_items_total :
    (js : Items) (d : Dict Json)
    → AllItems IsNamedPart js
    → AllEntries IsPart d
    → (d' : Dict Json) × (named_items js d ≡ ok d') × AllEntries IsPart d'
unfolding named_items item
named_items_total nil d parts all = (d, refl, all)
named_items_total (cons j js) d ((fs, is, (name, named), typed), parts) all =
    let (d', read, all') =
      named_items_total js (Dict.put name j d) parts
        (AllEntries-put IsPart name j d (fs, is, typed) all) in
    (d', rw (is, named) (rw (← is) read), all')

read_sources :
    (found : Option Json)
    → (found ≡ none) ⊎ ((gs : Fields) × (found ≡ some (obj gs)))
    → (d : Dict Json) × (items_of (or_default (obj end) found) ≡ ok d)
unfolding items_of
read_sources found (inl none_) = rw none_ (_, refl)
read_sources found (inr (gs, some_)) = rw some_ (_, refl)

read_pipelines :
    (found : Option Json)
    → (found ≡ none) ⊎ ((js : Items) × (found ≡ some (arr js)) × AllItems IsPipeline js)
    → (js : Items) × (elements (or_default (arr nil) found) ≡ ok js) × AllItems IsPipeline js
unfolding elements
read_pipelines found (inl none_) = rw none_ (nil, refl, tt)
read_pipelines found (inr (js, some_, all)) = rw some_ (js, refl, all)

module _ {S : Type 0} (check : String → String → List Step → Json → S → Result S) (P : S → Type 0)
    (each : (klass name : String) (path : List Step) (j : Json) (s : S)
      → is_module klass ≡ true
      → P s
      → (s' : S) × (check klass name path j s ≡ ok s') × P s') where
  abbrev Runs : Result S → Type 0
  Runs r = (s' : S) × (r ≡ ok s') × P s'

  validate_module-Runs :
      (klass : String) (path : List Step) (j : Json) (s : S)
      → is_module klass ≡ true
      → IsPart j
      → P s
      → Runs (validate_module check klass path j s)
  unfolding validate_module get
  validate_module-Runs klass path j s known (fs, is, inl none_) p = rw (is, none_) (s, refl, p)
  validate_module-Runs klass path j s known (fs, is, inr (name, some_)) p =
      elim (Bool-cases (name == "")) [
        | inl empty ↦ rw (is, some_, empty) (s, refl, p)
        | inr full ↦ rw (is, some_, full) (each klass name path (obj fs) s known p)
      ]

  validate_modules-Runs :
      (klass group : String) (path : List Step) (d : Dict Json) (s : S)
      → is_module klass ≡ true
      → AllEntries IsPart d
      → P s
      → Runs (validate_modules check klass group path d s)
  unfolding validate_modules
  validate_modules-Runs klass group path [] s known all p = (s, refl, p)
  validate_modules-Runs klass group path ((name, j) ∷ rest) s known (part, all) p =
      let (s₁, one, p₁) =
        validate_module-Runs klass (path ++ key group ∷ key name ∷ []) j s known part p in
      rw one (validate_modules-Runs klass group path rest s₁ known all p₁)

  validate_stage_modules-Runs :
      (klass group : String) (fs : Fields) (path : List Step) (s : S)
      → is_module klass ≡ true
      → AreParts (find group fs)
      → P s
      → Runs (validate_stage_modules check klass group (obj fs) path s)
  unfolding validate_stage_modules get items_of
  validate_stage_modules-Runs klass group fs path s known (inl none_) p =
      rw none_ (validate_modules-Runs klass group path [] s known tt p)
  validate_stage_modules-Runs klass group fs path s known (inr (inl (gs, some_, all))) p =
      rw some_ (validate_modules-Runs klass group path (entries gs) s known all p)
  validate_stage_modules-Runs klass group fs path s known (inr (inr (js, some_, parts))) p =
      let (d, read, all) = named_items_total js [] parts tt in
      rw (some_, read) (validate_modules-Runs klass group path d s known all p)

  validate_stage-Runs :
      (j : Json) (path : List Step) (s : S) → IsStage j → P s → Runs (validate_stage check j path s)
  unfolding validate_stage item is_module
  validate_stage-Runs j path s (fs, is, (name, typed), devices, inputs, mounts) p =
      let (s₁, own, p₁) = each "Stage" name path (obj fs) s refl p in
      let (s₂, devs, p₂) =
        validate_stage_modules-Runs "Device" "devices" fs path s₁ refl devices p₁ in
      let (s₃, ins, p₃) = validate_stage_modules-Runs "Input" "inputs" fs path s₂ refl inputs p₂ in
      rw (is, typed, own, devs, ins)
        (validate_stage_modules-Runs "Mount" "mounts" fs path s₃ refl mounts p₃)

  validate_stages-Runs :
      (path : List Step) (i : ℕ) (js : Items) (s : S)
      → AllItems IsStage js
      → P s
      → Runs (validate_stages check path i js s)
  unfolding validate_stages
  validate_stages-Runs path i nil s stages p = (s, refl, p)
  validate_stages-Runs path i (cons j js) s (stage, stages) p =
      let (s₁, one, p₁) =
        validate_stage-Runs j (path ++ key "stages" ∷ position i ∷ []) s stage p in
      rw one (validate_stages-Runs path (suc i) js s₁ stages p₁)

  validate_pipeline-Runs :
      (j : Json) (path : List Step) (s : S)
      → IsPipeline j
      → P s
      → Runs (validate_pipeline check j path s)
  unfolding validate_pipeline get elements validate_stages
  validate_pipeline-Runs j path s (fs, is, inl none_) p = rw (is, none_) (s, refl, p)
  validate_pipeline-Runs j path s (fs, is, inr (js, some_, stages)) p =
      rw (is, some_) (validate_stages-Runs path 0 js s stages p)

  validate_pipelines-Runs :
      (i : ℕ) (js : Items) (s : S)
      → AllItems IsPipeline js
      → P s
      → Runs (validate_pipelines check i js s)
  unfolding validate_pipelines
  validate_pipelines-Runs i nil s pipelines p = (s, refl, p)
  validate_pipelines-Runs i (cons j js) s (pipeline, pipelines) p =
      let (s₁, one, p₁) =
        validate_pipeline-Runs j (key "pipelines" ∷ position i ∷ []) s pipeline p in
      rw one (validate_pipelines-Runs (suc i) js s₁ pipelines p₁)

  validate_sources-Runs : (d : Dict Json) (s : S) → P s → Runs (validate_sources check d s)
  unfolding validate_sources is_module
  validate_sources-Runs [] s p = (s, refl, p)
  validate_sources-Runs ((name, j) ∷ rest) s p =
      let (s₁, one, p₁) = each "Source" name (key "sources" ∷ key name ∷ []) j s refl p in
      rw one (validate_sources-Runs rest s₁ p₁)

  pub walk-Runs : (j : Json) (s : S) → IsManifest j → P s → Runs (walk check j s)
  unfolding walk get
  walk-Runs j s (fs, is, sources, pipelines) p =
      let (d, listed) = read_sources (find "sources" fs) sources in
      let (js, listed', all) = read_pipelines (find "pipelines" fs) pipelines in
      let (s₁, sourced, p₁) = validate_sources-Runs d s p in
      rw (is, listed, sourced, listed') (validate_pipelines-Runs 0 js s₁ all p₁)

-- ===== src/Meta/Schemas/Cached.antt =====
-- osbuild/meta.py: `Index.get_schema`, which keeps the schemata that it made, and a validation with one
-- of them, which keeps its validator. What is on disk is the parameter `disk`: the schema of a version
-- of the manifest, and that of a module by its class, name and version, as `ModuleInfo` has it.
use osbuild.Prelude.{
  ℕ, String, ◌==◌, eq_iff, Bool, true, false, ◌&&◌, ◌||◌, Option, none, some, List, [], ◌∷◌,
  if◌then◌else◌, opt_eq, opt_eq_sound, Result, ok, err, value_error, ◌>>=◌, >>=-eq-ok, ◌≡◌, sym, ap,
  subst, ◌∙◌, inl, inr, Bool-cases, Option-cases, All, arith,
}
use osbuild.Json.{Json}
use osbuild.Meta.Schemas.{ValidationResult, Schema, Validator, valid, validate}
use osbuild.Meta.Schemas.Accepts.{accepts, IsSound, valid-validate}

pub record Disk : Type 0 where
  pub manifest_schema : String → Option Json
  pub module_schema : String → String → String → Result (Option Json)

-- Class, name and version.
pub record Key : Type 0 where
  pub klass : String
  pub name : Option String
  pub version : String

abbrev pub Schemata : Type 0
Schemata = List (Key × Schema)

unfoldable pub same_key : Key → Key → Bool
same_key a b = (a.klass == b.klass) && (opt_eq a.name b.name && (a.version == b.version))

unfoldable pub find_schema : Key → Schemata → Option Schema
unfolding same_key
find_schema k [] = none
find_schema k ((j, schema) ∷ rest) = if same_key j k then some schema else find_schema k rest

unfoldable pub put_schema : Key → Schema → Schemata → Schemata
unfolding same_key
put_schema k schema [] = (k, schema) ∷ []
put_schema k schema ((j, old) ∷ rest) =
    if same_key j k then (j, schema) ∷ rest else (j, old) ∷ put_schema k schema rest

-- `klass in ModuleInfo.MODULES`
unfoldable pub is_module : String → Bool
is_module klass =
    (klass == "Assembler")
    || ((klass == "Device")
        || ((klass == "Input")
            || ((klass == "Mount") || ((klass == "Source") || (klass == "Stage")))))

abbrev or_klass : String → Option String → Option String
or_klass klass none = some klass
or_klass klass (some name) = if name == "" then some klass else some name

-- A module without a name is not on disk.
abbrev named_schema : Disk → Key → Option String → Result (Option Json)
named_schema disk k none = ok none
named_schema disk k (some name) = disk.module_schema k.klass name k.version

module _ (disk : Disk) where
  -- The schema data for a key, as it is on disk.
  unfoldable pub schema_on_disk : Key → Result (Option Json)
  unfolding is_module
  schema_on_disk k =
      if k.klass == "Manifest"
      then ok (disk.manifest_schema k.version)
      else if is_module k.klass
      then named_schema disk k k.name
      else err value_error

  abbrev made : Key → Schemata → Option Json → Result (Schema × Schemata)
  made k cache schema_data =
      let schema : Schema = record {
        schema_data = schema_data;
        name = or_klass k.klass k.name;
        has_validator = false;
      } in
      ok (schema, put_schema k schema cache)

  unfoldable pub get_schema : Key → Schemata → Result (Schema × Schemata)
  unfolding schema_on_disk find_schema put_schema
  get_schema k cache = elim (find_schema k cache) [
    | some schema ↦ ok (schema, cache)
    | none ↦ schema_on_disk k >>= made k cache
  ]

  module _ (show : ℕ → String) (v : Validator) where
    -- `get_schema(…).validate(target)`
    unfoldable pub check_with : Key → Json → Schemata → Result (ValidationResult × Schemata)
    unfolding get_schema
    check_with k target cache = do
      got ← get_schema k cache
      res ← validate show v target got.0
      ok (res.0, put_schema k res.1 got.1)

  module _ (v : Validator) where
    -- A kept schema is what is on disk.
    abbrev pub Fits : Key → Schema → Type 0
    Fits k schema = (schema_on_disk k ≡ ok schema.schema_data) × IsSound v schema

    abbrev pub IsCached : Schemata → Type 0
    IsCached = All (λ (e : Key × Schema). Fits e.0 e.1)

    same_key_sound : (a b : Key) → same_key a b ≡ true → a ≡ b
    unfolding same_key
    same_key_sound a b same =
        let klass : a.klass ≡ b.klass = ground (arith, eq_iff a.klass b.klass) in
        let version : a.version ≡ b.version = ground (arith, eq_iff a.version b.version) in
        let name = opt_eq_sound a.name b.name (ground arith) in cc

    find_schema-Fits :
        (k : Key) (cache : Schemata) (schema : Schema)
        → IsCached cache
        → find_schema k cache ≡ some schema
        → Fits k schema
    unfolding find_schema
    find_schema-Fits k [] schema c e = cc
    find_schema-Fits k ((j, other) ∷ rest) schema c e = elim (Bool-cases (same_key j k)) [
      | inl same ↦
          let here : some other ≡ some schema = (rw same at e) in
          let equal : other ≡ schema = cc in
          subst (λ x. Fits x schema) (same_key_sound j k same) (subst (Fits j) equal c.0)
      | inr apart ↦ find_schema-Fits k rest schema c.1 (rw apart at e)
    ]

    pub put_schema-IsCached :
        (k : Key) (schema : Schema) (cache : Schemata)
        → IsCached cache
        → Fits k schema
        → IsCached (put_schema k schema cache)
    unfolding put_schema
    put_schema-IsCached k schema [] c f = (f, tt)
    put_schema-IsCached k schema ((j, other) ∷ rest) c f = elim (Bool-cases (same_key j k)) [
      | inl same ↦ rw same (subst (λ x. Fits x schema) (sym (same_key_sound j k same)) f, c.1)
      | inr apart ↦ rw apart (c.0, put_schema-IsCached k schema rest c.1 f)
    ]

    made-Fits :
        (k : Key) (cache : Schemata) (read : Option Json) (got : Schema × Schemata)
        → IsCached cache
        → schema_on_disk k ≡ ok read
        → made k cache read ≡ ok got
        → Fits k got.0 × IsCached got.1
    made-Fits k cache read got c stored e =
        let fresh : Schema = record {
          schema_data = read;
          name = or_klass k.klass k.name;
          has_validator = false;
        } in
        let same : (fresh, put_schema k fresh cache) ≡ got = cc in
        let fits : Fits k fresh = (stored, λ never. cc) in
        subst (λ (g : Schema × Schemata). Fits k g.0 × IsCached g.1) same
          (fits, put_schema-IsCached k fresh cache c fits)

    pub get_schema-Fits :
        (k : Key) (cache : Schemata) (got : Schema × Schemata)
        → IsCached cache
        → get_schema k cache ≡ ok got
        → Fits k got.0 × IsCached got.1
    unfolding get_schema
    get_schema-Fits k cache got c e = elim (Option-cases (find_schema k cache)) [
      | inr (schema, found) ↦
          let kept : ok (schema, cache) ≡ ok got = (rw (found, get_schema) at e) in
          let same : (schema, cache) ≡ got = cc in
          subst (λ (g : Schema × Schemata). Fits k g.0 × IsCached g.1) same
            (find_schema-Fits k cache schema c found, c)
      | inl missing ↦
          let (read, stored, e₁) =
            >>=-eq-ok (schema_on_disk k) (made k cache) (rw (missing, get_schema) at e) in
          made-Fits k cache read got c stored e₁
    ]

    -- What `check_with` gives for a key says success exactly where the data on disk accepts the target,
    -- whatever was validated before.
    pub check_with-accepts :
        (show : ℕ → String) (k : Key) (target : Json) (cache : Schemata)
        (res : ValidationResult × Schemata)
        → IsCached cache
        → check_with show v k target cache ≡ ok res
        → (read : Option Json) × (schema_on_disk k ≡ ok read)
          × (valid res.0 ≡ accepts v target read)
          × IsCached res.1
    unfolding check_with
    check_with-accepts show k target cache res c e =
        let ((schema, kept), got, e₁) = >>=-eq-ok (get_schema k cache) _ e in
        let ((stored, sound), c₁) = get_schema-Fits k cache (schema, kept) c got in
        let (r, schema', done, same, sound', data_) = valid-validate show v target schema sound in
        let ended : (r, put_schema k schema' kept) ≡ res = (let last = (rw done at e₁) in cc) in
        subst
          (λ (x : ValidationResult × Schemata).
            (read : Option Json) × (schema_on_disk k ≡ ok read)
            × (valid x.0 ≡ accepts v target read)
            × IsCached x.1)
          ended
          (
            schema.schema_data,
            stored,
            same,
            put_schema-IsCached k schema' kept c₁ (stored ∙ ap ok (sym data_), sound'),
          )

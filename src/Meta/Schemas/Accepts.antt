-- ===== src/Meta/Schemas/Accepts.antt =====
-- osbuild/meta.py: which targets a schema accepts.
use osbuild.Prelude.{
  ℕ, String, Bool, true, false, ◌&&◌, Option, none, some, List, [], ◌∷◌, ok, ◌≡◌, refl, sym, ◌∙◌,
  inl, inr, Bool-cases, Option-cases, List-cases, arith,
}
use osbuild.Json.{Json, truthy}
use osbuild.Meta.Schemas.{
  Step, ValidationError, ValidationResult, Schema, Validator, add_error, add, fail, valid, add_all,
  validate, rebase, merge_errors, merge, insert_error, sorted_errors, no_errors,
}

abbrev is_empty : List ValidationError → Bool
is_empty [] = true
is_empty (e ∷ es) = false

abbrev is_none : Option ValidationError → Bool
is_none none = true
is_none (some e) = false

-- There is schema data, it is a schema, and the target has no errors under it.
unfoldable pub accepts : Validator → Json → Option Json → Bool
accepts v target none = false
accepts v target (some j) =
    truthy j && (is_none (v.check_schema j) && is_empty (v.iter_errors j target))

-- A schema has a validator only if its data is a schema.
abbrev pub IsSound : Validator → Schema → Type 0
IsSound v schema =
    schema.has_validator ≡ true
    → (j : Json) × (schema.schema_data ≡ some j) × (truthy j ≡ true) × (v.check_schema j ≡ none)

accepts-fine :
    (v : Validator) (target j : Json)
    → truthy j ≡ true
    → v.check_schema j ≡ none
    → accepts v target (some j) ≡ is_empty (v.iter_errors j target)
unfolding accepts
accepts-fine v target j full fine = rw (full, fine) refl

accepts-empty :
    (v : Validator) (target j : Json) → truthy j ≡ false → accepts v target (some j) ≡ false
unfolding accepts
accepts-empty v target j empty = rw empty refl

accepts-none : (v : Validator) (target : Json) → accepts v target none ≡ false
unfolding accepts
accepts-none v target = refl

accepts-bad :
    (v : Validator) (target j : Json) (e : ValidationError)
    → v.check_schema j ≡ some e
    → accepts v target (some j) ≡ false
unfolding accepts
accepts-bad v target j e bad = rw bad (ground arith)

module _ (show : ℕ → String) where
  add_error-some :
      (e : ValidationError) (errors : List ValidationError)
      → is_empty (add_error show e errors) ≡ false
  unfolding add_error
  add_error-some e [] = ground arith
  add_error-some e (x ∷ xs) = ground arith

  valid-add : (e : ValidationError) (r : ValidationResult) → valid (add show e r) ≡ false
  unfolding add
  valid-add e r = elim (Bool-cases (is_empty (add_error show e r.errors))) [
    | inl empty ↦ let never : true ≡ false = sym empty ∙ add_error-some e r.errors in cc
    | inr full ↦ ground arith
  ]

  add_all-failed :
      (v : Validator) (es : List ValidationError) (r : ValidationResult)
      → valid r ≡ false
      → valid (add_all show v es r) ≡ false
  unfolding add_all
  add_all-failed v [] r bad = bad
  add_all-failed v (e ∷ es) r bad = add_all-failed v es (add show e r) (valid-add e r)

  valid-add_all :
      (v : Validator) (es : List ValidationError) (r : ValidationResult)
      → valid r ≡ true
      → valid (add_all show v es r) ≡ is_empty es
  unfolding add_all
  valid-add_all v [] r good = good
  valid-add_all v (e ∷ es) r good = add_all-failed v es (add show e r) (valid-add e r)

  merge_errors-failed :
      (path : List Step) (es : List ValidationError) (r : ValidationResult)
      → valid r ≡ false
      → valid (merge_errors show path es r) ≡ false
  unfolding merge_errors
  merge_errors-failed path [] r bad = bad
  merge_errors-failed path (e ∷ es) r bad =
      merge_errors-failed path es (add show (rebase path e) r) (valid-add (rebase path e) r)

  insert_error-some :
      (e : ValidationError) (es : List ValidationError) → is_empty (insert_error show e es) ≡ false
  unfolding insert_error
  insert_error-some e [] = refl
  insert_error-some e (x ∷ xs) = ground arith

  merge_errors-full :
      (path : List Step) (es : List ValidationError) (r : ValidationResult)
      → is_empty es ≡ false
      → valid (merge_errors show path es r) ≡ (valid r && false)
  unfolding merge_errors
  merge_errors-full path [] r full = cc
  merge_errors-full path (e ∷ es) r full =
      merge_errors-failed path es (add show (rebase path e) r) (valid-add (rebase path e) r)
      ∙ ground arith

  -- A merge adds all errors of a result.
  pub valid-merge :
      (path : List Step) (res r : ValidationResult)
      → valid (merge show path res r) ≡ (valid r && valid res)
  unfolding merge sorted_errors
  valid-merge path res r = elim (List-cases res.errors) [
    | inl none_ ↦ rw none_ (ground arith)
    | inr (e, es, some_) ↦ rw some_ (
        merge_errors-full path (insert_error show e (sorted_errors show es)) r
          (insert_error-some e (sorted_errors show es)))
  ]

  valid-fail : (msg : String) (r : ValidationResult) → valid (fail show msg r) ≡ false
  unfolding fail
  valid-fail msg r = valid-add (record { message = msg; path = [] }) r

  -- Checking a target against a sound schema raises nothing, and gives a result without errors exactly
  -- where the schema's data accepts the target. The schema stays sound and keeps its data.
  pub valid-validate :
      (v : Validator) (target : Json) (schema : Schema)
      → IsSound v schema
      → (res : ValidationResult) × (schema' : Schema) × (validate show v target schema
          ≡ ok (res, schema'))
        × (valid res ≡ accepts v target schema.schema_data)
        × IsSound v schema'
        × (schema'.schema_data ≡ schema.schema_data)
  unfolding validate
  valid-validate v target schema sound = elim (Bool-cases schema.has_validator) [
    | inl has ↦
        let (j, data_, full, fine) = sound has in
        rw (has, data_)
          (
            _,
            _,
            refl,
            valid-add_all v (v.iter_errors j target) (no_errors show v schema) refl
                ∙ sym (accepts-fine v target j full fine),
            λ always. (j, refl, full, fine),
            refl,
          )
    | inr lacks ↦ elim (Option-cases schema.schema_data) [
      | inl none_ ↦
          rw (lacks, none_, valid-fail)
            (_, _, refl, valid-fail _ _ ∙ sym (accepts-none v target), λ never. cc, refl)
      | inr (j, some_) ↦ elim (Bool-cases (truthy j)) [
        | inr empty ↦
            rw (lacks, some_, empty, valid-fail)
              (_, _, refl, valid-fail _ _ ∙ sym (accepts-empty v target j empty), λ never. cc, refl)
        | inl full ↦ elim (Option-cases (v.check_schema j)) [
          | inl fine ↦
              rw (lacks, some_, full, fine)
                (
                  _,
                  _,
                  refl,
                  valid-add_all v (v.iter_errors j target) (no_errors show v schema) refl
                      ∙ sym (accepts-fine v target j full fine),
                  λ always. (j, refl, full, fine),
                  refl,
                )
          | inr (e, bad) ↦
              rw (lacks, some_, full, bad, valid-add)
                (
                  _,
                  _,
                  refl,
                  valid-add e (no_errors show v schema) ∙ sym (accepts-bad v target j e bad),
                  λ never. cc,
                  refl,
                )
        ]
      ]
    ]
  ]

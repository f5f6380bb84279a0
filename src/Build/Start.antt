-- ===== src/Build/Start.antt =====
-- osbuild/pipeline.py: where a build starts, and the build without a store as its reference.
use mathlib.Core.List.{reverse-cons, append_assoc}
use osbuild.Prelude.{
  String, Bool, true, false, Option, none, some, List, [], ◌∷◌, ◌++◌, reverse, Result, ok, err,
  ◌>>=◌, >>=-eq-ok, ◌≡◌, refl, sym, ap, ◌∙◌, subst, ◌⊎◌, inl, inr, Bool-cases, All, arith,
}
use osbuild.Digest.{Digest}
use osbuild.Objects.{Stage, Runner}
use osbuild.Stage.{stage_id}
use osbuild.ObjectStore
use osbuild.ObjectStore.{Object, ObjectStore, Contents, read, write}
use osbuild.Build.{BuildTree, Exec, is_zero, plan}

module _ {C : Type 0} (exec : Exec C) (bt : BuildTree C) (runner : Runner) where
  abbrev pub continue_if : Bool → Option C → Option C
  continue_if true o = o
  continue_if false o = none

  -- The reference: all stages in a row, with no store. `none` is a failing stage.
  unfoldable pub from_scratch : List Stage → C → Option C
  from_scratch [] c = some c
  from_scratch (stage ∷ rest) c =
      let (content, exit) = exec bt runner stage c in
      continue_if (is_zero exit.returncode) (from_scratch rest content)

  pub from_scratch-append :
      (xs ys : List Stage) (c : C) {d : C}
      → from_scratch xs c ≡ some d
      → from_scratch (xs ++ ys) c ≡ from_scratch ys d
  unfolding from_scratch
  from_scratch-append [] ys c e = ap (from_scratch ys) (cc)
  from_scratch-append (stage ∷ xs) ys c e =
      elim (Bool-cases (is_zero (exec bt runner stage c).1.returncode)) [
        | inl done ↦ rw done (from_scratch-append xs ys (exec bt runner stage c).0 (rw done at e))
        | inr failed ↦ let never = (rw failed at e) in cc
      ]

module _ {C : Type 0} where
  -- A miss changes nothing.
  get-none :
      (id : Option String) (s s' : ObjectStore C) → ObjectStore.get id s ≡ ok (none, s') → s' ≡ s
  unfolding ObjectStore.get
  get-none id s s' e = ground arith

module _ {C : Type 0} (h : Digest) (k : Contents C) (exec : Exec C) (bt : BuildTree C)
    (runner : Runner) where
  -- What the store has for a stage of the list is what a full build has after that stage.
  abbrev pub IsCoherent : List Stage → ObjectStore C → Type 0
  IsCoherent stages s =
      (before after : List Stage) (stage : Stage) (o : Object C) (s' : ObjectStore C)
      → stages ≡ before ++ stage ∷ after
      → ObjectStore.get (some (stage_id h stage)) s ≡ ok (some o, s')
      → from_scratch exec bt runner (before ++ stage ∷ []) k.fresh ≡ some o.content

  -- A new object, or one that a base was copied into.
  abbrev pub IsDraft : Object C → Object C → Type 0
  IsDraft tree tree' =
      (tree'.id ≡ tree.id) × (tree'.mode ≡ tree.mode) × (tree'.source_epoch ≡ tree.source_epoch)

  abbrev pub IsMissing : ObjectStore C → Stage → Type 0
  IsMissing s stage = ObjectStore.get (some (stage_id h stage)) s ≡ ok (none, s)

  -- No stage at all, or the last one is in the store.
  abbrev pub EndsStored : ObjectStore C → List Stage → Type 0
  EndsStored s before =
      (before ≡ [])
      ⊎ ((earlier : List Stage) × (stage : Stage) × (o : Object C) × (s' : ObjectStore C) × (before
            ≡ earlier ++ stage ∷ [])
          × (ObjectStore.get (some (stage_id h stage)) s ≡ ok (some o, s')))

  abbrev pub Planned : List Stage → ObjectStore C → Object C → List Stage → Object C → Type 0
  Planned stages s tree todo' tree' =
      (before : List Stage) × (stages ≡ before ++ todo')
      × (from_scratch exec bt runner before k.fresh ≡ some tree'.content)
      × IsDraft tree tree'
      × EndsStored s before
      × All (IsMissing s) todo'

  init-copy :
      (base tree tree' : Object C)
      → ObjectStore.init base tree ≡ ok tree'
      → (tree'.content ≡ base.content) × IsDraft tree tree'
  unfolding ObjectStore.init
  init-copy base tree tree' e = ground arith

  -- A round of `plan` by what the store has for the stage.
  plan_step :
      (stages rev todo todo' : List Stage) (stage : Stage) (tree tree' : Object C)
      (s s' : ObjectStore C) (r : Result (Option (Object C) × ObjectStore C))
      → IsCoherent stages s
      → stages ≡ reverse rev ++ stage ∷ todo
      → All (IsMissing s) todo
      → (IsMissing s stage
          → plan h k exec rev (stage ∷ todo) tree s ≡ ok (tree', todo', s')
          → Planned stages s tree todo' tree')
      → ObjectStore.get (some (stage_id h stage)) s ≡ r
      → (r >>= λ found. elim found.0 [
        | none ↦ plan h k exec rev (stage ∷ todo) tree found.1
        | some base ↦ ObjectStore.init base tree >>= λ t. ok (t, todo, found.1)
      ])
        ≡ ok (tree', todo', s')
      → Planned stages s tree todo' tree'
  plan_step stages rev todo todo' stage tree tree' s s' (err x) coherent split miss ih got e = cc
  plan_step stages rev todo todo' stage tree tree' s s' (ok (none, s₁)) coherent split miss ih got
        e =
      let same : s₁ ≡ s = get-none (some (stage_id h stage)) s s₁ got in
      ih (rw same at got) (rw same at e)
  plan_step stages rev todo todo' stage tree tree' s s' (ok (some base, s₁)) coherent split miss ih
        got e =
      let (t, copied, done) = >>=-eq-ok (ObjectStore.init base tree) _ e in
      let same : t ≡ tree' = cc in
      let same_todo : todo ≡ todo' = cc in
      let (content, draft) = init-copy base tree tree' (rw same at copied) in
      (
        reverse rev ++ stage ∷ [],
        split
            ∙ sym (append_assoc (reverse rev) (stage ∷ []) todo)
            ∙ ap (λ (l : List Stage). (reverse rev ++ stage ∷ []) ++ l) same_todo,
        coherent (reverse rev) todo stage base s₁ split got ∙ ap some (sym content),
        draft,
        inr (reverse rev, stage, base, s₁, refl, got),
        subst (All (IsMissing s)) same_todo miss,
      )

  pub plan-coherent :
      (stages rev todo todo' : List Stage) (tree tree' : Object C) (s s' : ObjectStore C)
      → IsCoherent stages s
      → stages ≡ reverse rev ++ todo
      → tree.content ≡ k.fresh
      → All (IsMissing s) todo
      → plan h k exec rev todo tree s ≡ ok (tree', todo', s')
      → Planned stages s tree todo' tree'
  unfolding plan from_scratch
  plan-coherent stages [] todo todo' tree tree' s s' coherent split new miss e =
      let same : tree ≡ tree' = cc in
      let same_todo : todo ≡ todo' = cc in
      (
        [],
        split ∙ same_todo,
        cc,
        rw (← same) (refl, refl, refl),
        inl refl,
        subst (All (IsMissing s)) same_todo miss,
      )
  plan-coherent stages (stage ∷ rev) todo todo' tree tree' s s' coherent split new miss e =
      let split' : stages ≡ reverse rev ++ stage ∷ todo =
        split
        ∙ ap (λ (l : List Stage). l ++ todo) (reverse-cons stage rev)
        ∙ append_assoc (reverse rev) (stage ∷ []) todo in
      plan_step stages rev todo todo' stage tree tree' s s'
        (ObjectStore.get (some (stage_id h stage)) s) coherent split' miss
        (λ m.
          plan-coherent stages rev (stage ∷ todo) todo' tree tree' s s' coherent split' new
            (m, miss))
        refl e

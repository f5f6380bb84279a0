-- ===== src/Manifest/Order.antt =====
-- The order that `Manifest.depsolve` of osbuild/pipeline.py returns.
use mathlib.Core.List.{reverse_aux-append}
use osbuild.Prelude.{
  String, Bool, true, false, Option, none, some, List, [], ◌∷◌, ◌++◌, map, reverse, reverse_aux,
  if◌then◌else◌, truthy_name, opt_eq, opt_eq_sound, opt_eq_refl, ◌≡◌, refl, sym, ap, ◌∙◌, subst,
  ◌⊎◌, inl, inr, Has, All, All-imp, Has-reverse_aux, Bool-cases, arith,
}
use osbuild.Digest.{Digest}
use osbuild.Objects.{Stage, Pipeline, Manifest}
use osbuild.Stage.{stage_id, dependencies}
use osbuild.Pipeline.{pipeline_id}
use osbuild.Manifest.{get, push_build, push_stages, drop_id, visit}

module _ (h : Digest) (m : Manifest) (stored : Option String → Bool) where
  build_dependency : Option String → List (Option Pipeline)
  build_dependency none = []
  build_dependency (some build) = if truthy_name (some build) then get h m (some build) ∷ [] else []

  -- The pipelines that the inputs of the stages name, up to the first stage that is stored.
  stage_dependencies : List Stage → List (Option Pipeline)
  stage_dependencies [] = []
  stage_dependencies (s ∷ rest) =
      let more = map (get h m) (dependencies s) ++ stage_dependencies rest in
      if stored (some (stage_id h s)) then [] else more

  -- What has to be there before the pipeline can be built: its build pipeline, and what its stages
  -- take trees from, from the last stage back to one that the store has.
  unfoldable pub direct : Pipeline → List (Option Pipeline)
  unfolding build_dependency stage_dependencies
  direct pl = build_dependency pl.build ++ stage_dependencies (reverse pl.stages)

  -- In the store, or built earlier.
  abbrev pub Settled : List (Option String) → Option Pipeline → Type 0
  Settled before none = ⊥
  Settled before (some d) = (stored (pipeline_id h d) ≡ true) ⊎ Has (pipeline_id h d) before

  -- A list in build order: each pipeline is missing from the store, stands there once, and what it
  -- needs is in the store or stands before it.
  abbrev pub IsBuildOrder : List (Option String) → List Pipeline → Type 0
  IsBuildOrder before [] = Unit
  IsBuildOrder before (pl ∷ pls) =
      (stored (pipeline_id h pl) ≡ false)
      × (¬ Has (pipeline_id h pl) before)
      × All (Settled before) (direct pl)
      × IsBuildOrder (pipeline_id h pl ∷ before) pls

  push_stages-eq :
      (ss : List Stage) (check : List (Option Pipeline))
      → push_stages h m stored ss check ≡ reverse_aux (stage_dependencies ss) check
  unfolding push_stages stage_dependencies
  push_stages-eq [] check = refl
  push_stages-eq (s ∷ rest) check = elim (Bool-cases (stored (some (stage_id h s)))) [
    | inl e ↦ rw e
    | inr e ↦ rw e (
        push_stages-eq rest (reverse_aux (map (get h m) (dependencies s)) check)
        ∙ sym (reverse_aux-append (map (get h m) (dependencies s)) (stage_dependencies rest) check))
  ]

  push_build-eq :
      (build : Option String) (check : List (Option Pipeline))
      → push_build h m stored build check ≡ reverse_aux (build_dependency build) check
  unfolding push_build build_dependency
  push_build-eq none check = refl
  push_build-eq (some build) check = ground arith

  pub visit-eq :
      (pl : Pipeline) (check : List (Option Pipeline))
      → visit h m stored pl check ≡ reverse_aux (direct pl) check
  unfolding visit direct
  visit-eq pl check =
      push_stages-eq (reverse pl.stages) (push_build h m stored pl.build check)
      ∙ ap (reverse_aux (stage_dependencies (reverse pl.stages))) (push_build-eq pl.build check)
      ∙ sym (
          reverse_aux-append (build_dependency pl.build) (stage_dependencies (reverse pl.stages))
            check)

  abbrev pub Pending : List (Option Pipeline) → List (Option String) → Option Pipeline → Type 0
  Pending check before o = Has o check ⊎ Settled before o

  -- The invariant of the loop: as `IsBuildOrder`, but what is needed may still wait to be checked.
  abbrev pub Backed : List (Option Pipeline) → List (Option String) → List Pipeline → Type 0
  Backed check before [] = Unit
  Backed check before (pl ∷ pls) =
      (stored (pipeline_id h pl) ≡ false)
      × (¬ Has (pipeline_id h pl) before)
      × All (Pending check before) (direct pl)
      × Backed check (pipeline_id h pl ∷ before) pls

  pub Pending-skip :
      (p : Pipeline) (check : List (Option Pipeline)) (before : List (Option String))
      (o : Option Pipeline)
      → stored (pipeline_id h p) ≡ true
      → Pending (some p ∷ check) before o
      → Pending check before o
  Pending-skip p check before o e (inl (inl same)) = inr (subst (Settled before) (sym same) (inl e))
  Pending-skip p check before o e (inl (inr waits)) = inl waits
  Pending-skip p check before o e (inr s) = inr s

  -- A stored pipeline can be dropped from the stack.
  pub Backed-skip :
      (p : Pipeline) (check : List (Option Pipeline)) (before : List (Option String))
      (pls : List Pipeline)
      → stored (pipeline_id h p) ≡ true
      → Backed (some p ∷ check) before pls
      → Backed check before pls
  Backed-skip p check before [] e b = tt
  Backed-skip p check before (pl ∷ pls) e b = (
    b.0,
    b.1,
    All-imp _ _ (direct pl) (λ o w. Pending-skip p check before o e w) b.2,
    Backed-skip p check (pipeline_id h pl ∷ before) pls e b.3,
  )

  pub Settled-mono :
      (before after : List (Option String)) (o : Option Pipeline)
      → ((k : Option String) → Has k before → Has k after)
      → Settled before o
      → Settled after o
  Settled-mono before after none sub s = s
  Settled-mono before after (some d) sub (inl e) = inl e
  Settled-mono before after (some d) sub (inr w) = inr (sub (pipeline_id h d) w)

  pub Pending-visit :
      (p : Pipeline) (check : List (Option Pipeline)) (before after : List (Option String))
      (o : Option Pipeline)
      → ((k : Option String) → Has k before → Has k after)
      → Has (pipeline_id h p) after
      → Pending (some p ∷ check) before o
      → Pending (visit h m stored p check) after o
  Pending-visit p check before after o sub here (inl (inl same)) =
      inr (subst (Settled after) (sym same) (inr here))
  Pending-visit p check before after o sub here (inl (inr waits)) =
      inl (subst (Has o) (sym (visit-eq p check)) (Has-reverse_aux o (direct p) check (inr waits)))
  Pending-visit p check before after o sub here (inr s) = inr (Settled-mono before after o sub s)

  Has-cons_mono :
      (j : Option String) (before after : List (Option String))
      → ((k : Option String) → Has k before → Has k after)
      → (k : Option String) → Has k (j ∷ before)
      → Has k (j ∷ after)
  Has-cons_mono j before after sub k (inl e) = inl e
  Has-cons_mono j before after sub k (inr w) = inr (sub k w)

  Has-sub_cons :
      (j : Option String) (before after : List (Option String))
      → Has j after
      → ((k : Option String) → Has k before → Has k after)
      → (k : Option String) → Has k (j ∷ before)
      → Has k after
  Has-sub_cons j before after here sub k (inl e) = subst (λ i. Has i after) (sym e) here
  Has-sub_cons j before after here sub k (inr w) = sub k w

  keep_left :
      (j : Option String) (before : List (Option String)) (k i : Option String)
      → Has k before ⊎ (k ≡ i)
      → Has k (j ∷ before) ⊎ (k ≡ i)
  keep_left j before k i (inl w) = inl (inr w)
  keep_left j before k i (inr e) = inr e

  back_cons :
      (j : Option String) (before after : List (Option String)) (k i : Option String)
      → (Has k after → Has k before ⊎ (k ≡ i))
      → Has k (j ∷ after)
      → Has k (j ∷ before) ⊎ (k ≡ i)
  back_cons j before after k i back (inl e) = inl (inl e)
  back_cons j before after k i back (inr w) = keep_left j before k i (back w)

  -- What stays of the list when `p` moves in front of it.
  pub Backed-visit :
      (p : Pipeline) (check : List (Option Pipeline)) (before after : List (Option String))
      (pls : List Pipeline)
      → ((k : Option String) → Has k before → Has k after)
      → Has (pipeline_id h p) after
      → ((k : Option String) → Has k after → Has k before ⊎ (k ≡ pipeline_id h p))
      → Backed (some p ∷ check) before pls
      → Backed (visit h m stored p check) after (drop_id h (pipeline_id h p) pls)
  unfolding drop_id
  Backed-visit p check before after [] sub here back b = tt
  Backed-visit p check before after (pl ∷ pls) sub here back b =
      elim (Bool-cases (opt_eq (pipeline_id h p) (pipeline_id h pl))) [
        | inl same ↦
            let e = opt_eq_sound (pipeline_id h p) (pipeline_id h pl) same in
            rw same (
              Backed-visit p check (pipeline_id h pl ∷ before) after pls
                (Has-sub_cons (pipeline_id h pl) before after (subst (λ k. Has k after) e here) sub)
                here (λ k w. keep_left (pipeline_id h pl) before k (pipeline_id h p) (back k w))
                b.3)
        | inr other ↦ rw other (
          b.0,
          λ w. elim (back (pipeline_id h pl) w) [
            | inl old ↦ b.1 old
            | inr e ↦
                let same : opt_eq (pipeline_id h p) (pipeline_id h pl) ≡ true =
                  rw e (opt_eq_refl (pipeline_id h p)) in
                cc
          ],
          All-imp _ _ (direct pl) (λ o w. Pending-visit p check before after o sub here w) b.2,
          Backed-visit p check (pipeline_id h pl ∷ before) (pipeline_id h pl ∷ after) pls
              (Has-cons_mono (pipeline_id h pl) before after sub) (inr here)
              (λ k w. back_cons (pipeline_id h pl) before after k (pipeline_id h p) (back k) w) b.3,
        )
      ]

-- ===== src/Manifest/Depsolve.antt =====
-- What `Manifest.depsolve` of osbuild/pipeline.py returns, if it returns.
use osbuild.Prelude.{
  ℕ, zero, suc, String, Bool, false, Option, none, some, List, [], ◌∷◌, map, reverse, opt_eq,
  opt_eq_sound, Result, ok, err, ◌≡◌, refl, sym, subst, inl, inr, Has, All, All-imp,
  Has-reverse_aux, All-Has, Bool-cases,
}
use osbuild.Digest.{Digest}
use osbuild.Objects.{Pipeline, Manifest}
use osbuild.Pipeline.{pipeline_id}
use osbuild.Manifest.{get, drop_id, move_to_end, visit, names, depsolve_loop, depsolve}
use osbuild.Manifest.Order.{
  direct, Settled, IsBuildOrder, visit-eq, Pending, Backed, Pending-skip, Backed-skip,
  Pending-visit, Backed-visit,
}

names-eq-ok :
    (r : Option (Result (List Pipeline))) {order : List String}
    → names r ≡ some (ok order)
    → (pls : List Pipeline) × (r ≡ some (ok pls)) × (order ≡ map (λ pl. pl.name) pls)
names-eq-ok none e = cc
names-eq-ok (some (err x)) e = cc
names-eq-ok (some (ok pls)) e = (pls, refl, cc)

module _ (h : Digest) (m : Manifest) (stored : Option String → Bool) where
  abbrev pub ids : List Pipeline → List (Option String)
  ids = map (pipeline_id h)

  Pending-none :
      (before : List (Option String)) (o : Option Pipeline)
      → Pending h m stored [] before o
      → Settled h m stored before o
  Pending-none before o (inl w) = absurd w
  Pending-none before o (inr s) = s

  Backed-none :
      (before : List (Option String)) (pls : List Pipeline)
      → Backed h m stored [] before pls
      → IsBuildOrder h m stored before pls
  Backed-none before [] b = tt
  Backed-none before (pl ∷ pls) b = (
    b.0,
    b.1,
    All-imp _ _ (direct h m stored pl) (Pending-none before) b.2,
    Backed-none (pipeline_id h pl ∷ before) pls b.3,
  )

  Has-insert :
      (k i j : Option String) (js : List (Option String)) → Has k (i ∷ js) → Has k (i ∷ j ∷ js)
  Has-insert k i j js (inl e) = inl e
  Has-insert k i j js (inr w) = inr (inr w)

  -- Moving a pipeline to the end forgets no id.
  Has-drop_id :
      (k i : Option String) (pls : List Pipeline)
      → Has k (ids pls)
      → Has k (i ∷ ids (drop_id h i pls))
  unfolding drop_id
  Has-drop_id k i [] w = absurd w
  Has-drop_id k i (pl ∷ pls) (inl here) = elim (Bool-cases (opt_eq i (pipeline_id h pl))) [
    | inl same ↦ inl (cc (opt_eq_sound i (pipeline_id h pl) same))
    | inr other ↦ rw other (inr (inl here))
  ]
  Has-drop_id k i (pl ∷ pls) (inr later) = elim (Bool-cases (opt_eq i (pipeline_id h pl))) [
    | inl same ↦ rw same (Has-drop_id k i pls later)
    | inr other ↦
        rw other
          (Has-insert k i (pipeline_id h pl) (ids (drop_id h i pls)) (Has-drop_id k i pls later))
  ]

  Backed-move_to_end :
      (p : Pipeline) (check : List (Option Pipeline)) (build : List Pipeline)
      → stored (pipeline_id h p) ≡ false
      → Backed h m stored (some p ∷ check) [] build
      → Backed h m stored (visit h m stored p check) [] (move_to_end h p build)
  unfolding move_to_end
  Backed-move_to_end p check build e b = (
    e,
    λ w. w,
    All-Has _ (direct h m stored p) (λ o w. inl (
        subst (Has o) (sym (visit-eq h m stored p check))
          (Has-reverse_aux o (direct h m stored p) check (inl w)))),
    Backed-visit h m stored p check [] (pipeline_id h p ∷ []) build (λ k w. absurd w) (inl refl)
        (λ k w. elim w [ inl same ↦ inr same | inr no_more ↦ absurd no_more ]) b,
  )

  Pending-move_to_end :
      (p : Pipeline) (check : List (Option Pipeline)) (build : List Pipeline) (o : Option Pipeline)
      → Pending h m stored (some p ∷ check) (ids build) o
      → Pending h m stored (visit h m stored p check) (ids (move_to_end h p build)) o
  unfolding move_to_end
  Pending-move_to_end p check build o w =
      Pending-visit h m stored p check (ids build)
        (pipeline_id h p ∷ ids (drop_id h (pipeline_id h p) build)) o
        (λ k. Has-drop_id k (pipeline_id h p) build) (inl refl) w

  -- The loop ends with a build order in which all of `wanted` is settled.
  depsolve_loop_order :
      (n : ℕ) (check : List (Option Pipeline)) (build : List Pipeline)
      (wanted : List (Option Pipeline)) {pls : List Pipeline}
      → Backed h m stored check [] build
      → All (Pending h m stored check (ids build)) wanted
      → depsolve_loop h m stored n check build ≡ some (ok pls)
      → IsBuildOrder h m stored [] pls × All (Settled h m stored (ids pls)) wanted
  unfolding depsolve_loop
  depsolve_loop_order zero check build wanted b w e = cc
  depsolve_loop_order (suc n) [] build wanted {pls} b w e =
      let same : build ≡ pls = cc in
      rw (← same) (Backed-none [] build b, All-imp _ _ wanted (Pending-none (ids build)) w)
  depsolve_loop_order (suc n) (none ∷ check) build wanted b w e = cc
  depsolve_loop_order (suc n) (some p ∷ check) build wanted b w e =
      elim (Bool-cases (stored (pipeline_id h p))) [
        | inl old ↦
            depsolve_loop_order n check build wanted (Backed-skip h m stored p check [] build old b)
              (All-imp _ _ wanted (λ o. Pending-skip h m stored p check (ids build) o old) w)
              (rw old at e)
        | inr new ↦
            depsolve_loop_order n (visit h m stored p check) (move_to_end h p build) wanted
              (Backed-move_to_end p check build new b)
              (All-imp _ _ wanted (Pending-move_to_end p check build) w) (rw new at e)
      ]

  -- When `depsolve` returns a list of names, they are the names of pipelines in build order: each is
  -- missing from the store, no two have the same id, and the build pipeline of each and the pipelines
  -- that its stages take trees from (back to the last stage that the store has) are in the store or
  -- stand before it. Every target is in the store or among them.
  pub depsolve_order :
      (fuel : ℕ) (targets : List String) {order : List String}
      → depsolve h m stored fuel targets ≡ some (ok order)
      → (pls : List Pipeline) × (order ≡ map (λ pl. pl.name) pls)
        × IsBuildOrder h m stored [] pls
        × All (Settled h m stored (ids pls)) (map (λ t. get h m (some t)) targets)
  unfolding depsolve
  depsolve_order fuel targets {order} e =
      let wanted = map (λ t. get h m (some t)) targets in
      let (pls, ran, named) = names-eq-ok (depsolve_loop h m stored fuel (reverse wanted) []) e in
      let (sorted, settled) =
        depsolve_loop_order fuel (reverse wanted) [] wanted tt
          (All-Has _ wanted (λ o w. inl (Has-reverse_aux o wanted [] (inl w)))) ran in
      (pls, named, sorted, settled)

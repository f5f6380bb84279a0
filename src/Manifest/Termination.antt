-- ===== src/Manifest/Termination.antt =====
-- osbuild/pipeline.py: the rounds of `Manifest.depsolve`.
use mathlib.Core.List.{reverse_aux-eq, append-nil}
use osbuild.Prelude.{
  ℕ, zero, suc, ◌+◌, ◌≤◌, ◌<◌, String, Bool, Option, none, some, List, [], ◌∷◌, ◌++◌, map, reverse,
  Result, ok, ◌≡◌, refl, ◌∙◌, Has, All, All-imp, All-reverse_aux, inl, inr, Bool-cases, ap, arith,
}
use osbuild.Prelude.Dict
use osbuild.Digest.{Digest}
use osbuild.Objects.{Pipeline, Manifest}
use osbuild.Pipeline.{pipeline_id}
use osbuild.Manifest.{get, move_to_end, names, depsolve_loop, depsolve}
use osbuild.Manifest.Order.{direct, visit-eq}

module _ (h : Digest) (m : Manifest) (stored : Option String → Bool) (rank : Pipeline → ℕ) where
  -- A pipeline of the manifest whose rank is below the bound.
  abbrev pub IsBelow : ℕ → Option Pipeline → Type 0
  IsBelow bound none = ⊥
  IsBelow bound (some d) = Has d (Dict.values m.pipelines) × (rank d < bound)

  -- Every dependency names a pipeline of the manifest, of a lower rank: no cycles.
  abbrev pub IsRanked : Type 0
  IsRanked =
      (pl : Pipeline)
      → Has pl (Dict.values m.pipelines)
      → All (IsBelow (rank pl)) (direct h m stored pl)

  -- The loop ends with a list, from some fuel on.
  abbrev Ends : List (Option Pipeline) → List Pipeline → Type 0
  Ends check build =
      (n : ℕ) × (pls : List Pipeline) × ((f : ℕ)
        → n ≤ f
        → depsolve_loop h m stored f check build ≡ some (ok pls))

  later :
      (n : ℕ) (check : List (Option Pipeline)) (build : List Pipeline)
      {r : Option (Result (List Pipeline))}
      → ((g : ℕ) → n ≤ g → depsolve_loop h m stored (suc g) check build ≡ r)
      → (f : ℕ) → suc n ≤ f
      → depsolve_loop h m stored f check build ≡ r
  later n check build k zero le = absurd (omega arith)
  later n check build k (suc g) le = k g (omega arith)

  IsBelow-mono : (a b : ℕ) (o : Option Pipeline) → a ≤ b → IsBelow a o → IsBelow b o
  IsBelow-mono a b none le w = w
  IsBelow-mono a b (some d) le w = (w.0, omega arith)

  Ends-append :
      IsRanked
      → (bound : ℕ) (waiting rest : List (Option Pipeline)) → All (IsBelow bound) waiting
      → ((build : List Pipeline) → Ends rest build)
      → (build : List Pipeline) → Ends (waiting ++ rest) build
  unfolding depsolve_loop
  Ends-append ranked bound [] rest w k build = k build
  Ends-append ranked bound (none ∷ waiting) rest w k build = absurd w.0
  Ends-append ranked zero (some p ∷ waiting) rest w k build = absurd (omega arith)
  Ends-append ranked (suc bound) (some p ∷ waiting) rest w k build =
      elim (Bool-cases (stored (pipeline_id h p))) [
        | inl old ↦
            let (n, pls, e) = Ends-append ranked (suc bound) waiting rest w.1 k build in
            (suc n, pls, later n _ build (λ g le. rw old (e g le)))
        | inr new ↦
            let (n, pls, e) =
              Ends-append ranked bound (reverse (direct h m stored p)) (waiting ++ rest)
                (All-reverse_aux (IsBelow bound) (direct h m stored p) []
                  (All-imp _ _ (direct h m stored p)
                    (λ o. IsBelow-mono (rank p) bound o (omega arith)) (ranked p w.0.0))
                  tt)
                (Ends-append ranked (suc bound) waiting rest w.1 k) (move_to_end h p build) in
            let stack =
              visit-eq h m stored p (waiting ++ rest)
              ∙ reverse_aux-eq (direct h m stored p) (waiting ++ rest) in
            (suc n, pls, later n _ build (λ g le. rw new (rw stack (e g le))))
      ]

  Ends-nil : (build : List Pipeline) → Ends [] build
  unfolding depsolve_loop
  Ends-nil build = (1, build, later 0 [] build (λ g le. refl))

  -- On a manifest whose dependencies all name pipelines of it and make no cycle, and for targets that
  -- are among its pipelines, `depsolve` returns a list of names: there is a number of rounds such
  -- that with any fuel from it on the loop has ended with that list.
  pub depsolve_total :
      IsRanked
      → (bound : ℕ) (targets : List String)
      → All (IsBelow bound) (map (λ t. get h m (some t)) targets)
      → (n : ℕ) × (order : List String) × ((spare : ℕ)
          → depsolve h m stored (n + spare) targets ≡ some (ok order))
  unfolding depsolve
  depsolve_total ranked bound targets w =
      let wanted = reverse (map (λ t. get h m (some t)) targets) in
      let (n, pls, e) =
        Ends-append ranked bound wanted []
          (All-reverse_aux (IsBelow bound) (map (λ t. get h m (some t)) targets) [] w tt) Ends-nil
          [] in
      (
        n,
        map (λ pl. pl.name) pls,
        λ spare. ap names (rw (append-nil wanted) at (e (n + spare) (omega arith))),
      )

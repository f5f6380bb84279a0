-- ===== src/Build/Resume.antt =====
-- osbuild/pipeline.py: a build that starts from a stored checkpoint, against a full build.
use mathlib.Core.List.{append_assoc, append-nil, reverse-reverse, map-append}
use osbuild.Prelude.{
  String, true, Option, none, some, List, [], ◌∷◌, ◌++◌, map, reverse, ok, >>=-eq-ok, ◌≡◌, refl,
  sym, ap, ◌∙◌, subst, inl, inr, Has, Has-append_right, All, Bool-cases, arith,
}
use osbuild.Digest.{Digest}
use osbuild.Objects.{Stage, Runner, Pipeline}
use osbuild.Stage.{stage_id}
use osbuild.Pipeline.{pipeline_id}
use osbuild.ObjectStore
use osbuild.ObjectStore.{Object, ObjectStore, Contents, read, write}
use osbuild.Build.{
  BuildTree, Exec, Exit, StageResult, is_zero, stage_result_init, all_success, plan, run_stages,
  find_build_tree, build_missing,
}
use osbuild.Build.Start.{
  from_scratch, from_scratch-append, IsCoherent, IsMissing, EndsStored, plan-coherent,
}

module _ {C : Type 0} (h : Digest) (k : Contents C) (exec : Exec C) (bt : BuildTree C)
    (runner : Runner) where
  new-fresh :
      (id : Option String) (s : ObjectStore C) (tree : Object C)
      → ObjectStore.new k id s ≡ ok tree
      → (tree.content ≡ k.fresh) × (tree.mode ≡ write) × (tree.id ≡ id)
  unfolding ObjectStore.new
  new-fresh id s tree e = ground arith

  finalize-draft :
      (tree : Object C)
      → tree.source_epoch ≡ none
      → tree.mode ≡ write
      → ObjectStore.finalize k tree
        ≡ record { id = tree.id; mode = read; content = tree.content; source_epoch = none }
  unfolding ObjectStore.finalize
  finalize-draft tree epoch mode = ground arith

  commit-draft :
      (built : Object C) (id : String) (s s₁ : ObjectStore C) (clamped : Object C)
      → built.source_epoch ≡ none
      → ObjectStore.commit k built id s ≡ ok (clamped, s₁)
      → clamped ≡ built
  unfolding ObjectStore.commit
  commit-draft built id s s₁ clamped epoch e = ground arith

  success-eq :
      (stage : Stage) (exit : Exit)
      → (stage_result_init h stage exit).success ≡ is_zero exit.returncode
  unfolding stage_result_init
  success-eq stage exit = refl

  map_snoc :
      (stage : Stage) (exit : Exit) (results : List StageResult) (todo : List Stage)
      → map (λ r. r.id) (results ++ stage_result_init h stage exit ∷ []) ++ map (stage_id h) todo
        ≡ map (λ r. r.id) results ++ map (stage_id h) (stage ∷ todo)
  unfolding stage_result_init
  map_snoc stage exit results todo = rw map-append (rw append_assoc)

  all_success-last :
      (results : List StageResult) (r : StageResult)
      → all_success (results ++ r ∷ []) ≡ true
      → r.success ≡ true
  unfolding all_success
  all_success-last [] r e = ground arith
  all_success-last (x ∷ results) r e = ground (arith, all_success-last results r)

  -- The stages that run, and the object at the end.
  run_stages-success :
      (todo : List Stage) (tree : Object C) (results results' : List StageResult)
      (s t : ObjectStore C)
      → tree.source_epoch ≡ none
      → tree.mode ≡ write
      → run_stages h k exec bt runner todo tree results s ≡ ok (results', t)
      → all_success results' ≡ true
      → (c : C) × (from_scratch exec bt runner todo tree.content ≡ some c)
        × (map (λ r. r.id) results' ≡ map (λ r. r.id) results ++ map (stage_id h) todo)
        × Has (record { id = tree.id; mode = read; content = c; source_epoch = none }) t.objs
  unfolding run_stages from_scratch
  run_stages-success [] tree results results' s t epoch mode e good =
      let same : results ≡ results' = cc in
      let joined : t.objs ≡ s.objs ++ ObjectStore.finalize k tree ∷ [] = cc in
      (
        tree.content,
        refl,
        rw (append-nil, same),
        rw joined (Has-append_right _ s.objs _ (inl (sym (finalize-draft tree epoch mode)))),
      )
  run_stages-success (stage ∷ todo) tree results results' s t epoch mode e good =
      let (content, exit) = exec bt runner stage tree.content in
      let built : Object C = record tree { content = content } in
      let r = stage_result_init h stage exit in
      elim (Bool-cases (is_zero exit.returncode)) [
        | inl done ↦ rw done (elim (Bool-cases stage.checkpoint) [
          | inl marked ↦
              let ((clamped, s₁), committed, rest) =
                >>=-eq-ok (ObjectStore.commit k built (stage_id h stage) s) _
                  (rw (run_stages, success-eq stage exit, done, marked) at e) in
              let same : clamped ≡ built =
                commit-draft built (stage_id h stage) s s₁ clamped epoch committed in
              let (c, ran, ids, joined) =
                run_stages-success todo built (results ++ r ∷ []) results' s₁ t epoch mode
                  (subst
                    (λ o.
                      run_stages h k exec bt runner todo o (results ++ r ∷ []) s₁
                      ≡ ok (results', t))
                    same rest)
                  good in
              (c, ran, ids ∙ map_snoc stage exit results todo, joined)
          | inr plain ↦
              let (c, ran, ids, joined) =
                run_stages-success todo built (results ++ r ∷ []) results' s t epoch mode
                  (rw (run_stages, success-eq stage exit, done, plain) at e) good in
              (c, ran, ids ∙ map_snoc stage exit results todo, joined)
        ])
        | inr failed ↦
            let ended = (rw (run_stages, success-eq stage exit, failed) at e) in
            let same : results ++ r ∷ [] ≡ results' = cc in
            let never : r.success ≡ true = all_success-last results r (rw (← same) at good) in
            let zero_code = success-eq stage exit in cc
      ]

  -- A build that succeeds without a source epoch, on a store whose objects for the pipeline's stages
  -- are what a full build has after them, gives the object that a full build gives: the stages that
  -- ran are those behind the last stored one (or all, if none is stored), in order; and the object of the pipeline's id, now in
  -- the store to be read, has the content of all stages run in a row from the empty tree.
  pub build_missing-from_scratch :
      (pl : Pipeline) (s s₁ t : ObjectStore C) (results : List StageResult)
      → pl.source_epoch ≡ none
      → pl.runner ≡ runner
      → find_build_tree h k exec pl.build s ≡ ok (bt, s₁)
      → IsCoherent h k exec bt runner pl.stages s₁
      → build_missing h k exec pl s ≡ ok (results, t)
      → all_success results ≡ true
      → (c : C) × (before : List Stage) × (todo : List Stage) × (pl.stages ≡ before ++ todo)
        × EndsStored h k exec bt runner s₁ before
        × All (IsMissing h k exec bt runner s₁) todo
        × (map (λ r. r.id) results ≡ map (stage_id h) todo)
        × (from_scratch exec bt runner pl.stages k.fresh ≡ some c)
        × Has
            (record { id = pipeline_id h pl; mode = read; content = c; source_epoch = none })
            t.objs
  unfolding build_missing
  build_missing-from_scratch pl s s₁ t results epoch runs found coherent e good =
      let (new_tree, opened, e₁) =
        >>=-eq-ok (ObjectStore.new k (pipeline_id h pl) s₁) _ (rw (build_missing, found) at e) in
      let draft : Object C = record new_tree { source_epoch = pl.source_epoch } in
      let (fresh, mode, named) = new-fresh (pipeline_id h pl) s₁ new_tree opened in
      let ((tree, todo, s₂), chosen, e₂) =
        >>=-eq-ok (plan h k exec (reverse pl.stages) [] draft s₁) _ e₁ in
      let (before, split, base, drafted, stored, missing) =
        plan-coherent h k exec bt runner pl.stages (reverse pl.stages) [] todo draft tree s₁ s₂
          coherent (rw reverse-reverse (sym (append-nil pl.stages))) fresh tt chosen in
      let (same_id, same_mode, same_epoch) = drafted in
      let (c, ran, ids, joined) =
        run_stages-success todo tree [] results s₂ t (same_epoch ∙ epoch) (same_mode ∙ mode)
          (subst (λ (r : Runner). run_stages h k exec bt r todo tree [] s₂ ≡ ok (results, t)) runs
            e₂)
          good in
      (
        c,
        before,
        todo,
        split,
        stored,
        missing,
        ids,
        ap (λ (l : List Stage). from_scratch exec bt runner l k.fresh) split
            ∙ from_scratch-append exec bt runner before todo k.fresh base
            ∙ ran,
        subst
            (λ (i : Option String).
              Has (record { id = i; mode = read; content = c; source_epoch = none }) t.objs)
            (same_id ∙ named) joined,
      )

-- ===== src/Build/Failure.antt =====
-- osbuild/pipeline.py: a build whose stage fails.
use osbuild.Prelude.{
  String, true, false, not, ◌&&◌, Option, none, some, List, [], ◌∷◌, ◌++◌, reverse, ok, >>=-eq-ok,
  ◌≡◌, refl, sym, ap, ◌∙◌, subst, inl, inr, Bool-cases, Option-cases, arith, truthy_name,
}
use osbuild.Digest.{Digest}
use osbuild.Objects.{Stage, Runner, Pipeline}
use osbuild.Stage.{stage_id}
use osbuild.Pipeline.{pipeline_id}
use osbuild.ObjectStore
use osbuild.ObjectStore.{Object, ObjectStore, Contents, read, write}
use osbuild.Build.{
  BuildTree, host_tree, Exec, StageResult, stage_result_init, all_success, build_object, plan, join,
  run_stages, find_build_tree, build_missing,
}

-- The results of a build that failed: all stages but the last one succeeded.
abbrev pub IsStopped : List StageResult → Type 0
IsStopped results =
    (before : List StageResult) × (last : StageResult) × (results ≡ before ++ last ∷ [])
    × (all_success before ≡ true)
    × (last.success ≡ false)

all_success-snoc :
    (rs : List StageResult) (r : StageResult)
    → all_success (rs ++ r ∷ []) ≡ (all_success rs && r.success)
unfolding all_success
all_success-snoc [] r = ground arith
all_success-snoc (x ∷ rs) r = ground (arith, all_success-snoc rs r)

module _ {C : Type 0} where
  get-objs :
      (id : Option String) (s s' : ObjectStore C) (o : Option (Object C))
      → ObjectStore.get id s ≡ ok (o, s')
      → s'.objs ≡ s.objs
  unfolding ObjectStore.get
  get-objs id s s' o e = ground arith

  init-mode :
      (base tree tree' : Object C) → ObjectStore.init base tree ≡ ok tree' → tree'.mode ≡ tree.mode
  unfolding ObjectStore.init
  init-mode base tree tree' e = ground arith

  get_floating-snoc :
      (id : Option String) (objs : List (Object C)) (tree : Object C)
      → tree.mode ≡ write
      → ObjectStore.get_floating id (objs ++ tree ∷ []) ≡ ObjectStore.get_floating id objs
  unfolding ObjectStore.get_floating
  get_floating-snoc id [] tree mode = rw mode
  get_floating-snoc id (obj ∷ objs) tree mode = ground (arith, get_floating-snoc id objs tree mode)

  commit-objs :
      (k : Contents C) (obj obj' : Object C) (id : String) (s s' : ObjectStore C)
      → ObjectStore.commit k obj id s ≡ ok (obj', s')
      → (s'.objs ≡ s.objs) × (obj'.mode ≡ obj.mode)
  unfolding ObjectStore.commit ObjectStore.clamp_mtime
  commit-objs k obj obj' id s s' e = (ground arith, ground arith)

  new-mode :
      (k : Contents C) (id : Option String) (s : ObjectStore C) (tree : Object C)
      → ObjectStore.new k id s ≡ ok tree
      → tree.mode ≡ write
  unfolding ObjectStore.new
  new-mode k id s tree e = ground arith

module _ {C : Type 0} (h : Digest) (k : Contents C) (exec : Exec C) where
  build_object-objs :
      (o : Option (Object C)) (s s' : ObjectStore C) (bt : BuildTree C)
      → build_object h k exec (o, s) ≡ ok (bt, s')
      → s'.objs ≡ s.objs
  unfolding build_object
  build_object-objs none s s' bt e = cc
  build_object-objs (some obj) s s' bt e =
      let kept : s ≡ s' = cc in ap (λ (st : ObjectStore C). st.objs) (sym kept)

  find_build_tree-objs :
      (build : Option String) (s s' : ObjectStore C) (bt : BuildTree C)
      → find_build_tree h k exec build s ≡ ok (bt, s')
      → s'.objs ≡ s.objs
  unfolding find_build_tree build_object
  find_build_tree-objs build s s' bt e = elim (Bool-cases (not (truthy_name build))) [
    | inl on_host ↦
        let same : ok (host_tree, s) ≡ ok (bt, s') = (rw (on_host, find_build_tree) at e) in
        let kept : s ≡ s' = cc in ap (λ (st : ObjectStore C). st.objs) (sym kept)
    | inr in_tree ↦
        let ((o, s₁), got, e₁) =
          >>=-eq-ok (ObjectStore.get build s) (build_object h k exec)
            (rw (in_tree, find_build_tree) at e) in
        build_object-objs o s₁ s' bt e₁ ∙ get-objs build s s₁ o got
  ]

  plan-objs :
      (stages todo todo' : List Stage) (tree tree' : Object C) (s s' : ObjectStore C)
      → plan h k exec stages todo tree s ≡ ok (tree', todo', s')
      → (s'.objs ≡ s.objs) × (tree'.mode ≡ tree.mode)
  unfolding plan
  plan-objs [] todo todo' tree tree' s s' e = (cc, cc)
  plan-objs (stage ∷ before) todo todo' tree tree' s s' e =
      let ((o, s₁), got, e₁) = >>=-eq-ok (ObjectStore.get (some (stage_id h stage)) s) _ e in
      let kept = get-objs (some (stage_id h stage)) s s₁ o got in
      elim (Option-cases o) [
        | inl miss ↦
            let (later, mode) =
              plan-objs before (stage ∷ todo) todo' tree tree' s₁ s' (rw miss at e₁) in
            (later ∙ kept, mode)
        | inr (base, hit) ↦
            let (copy, copied, e₂) =
              >>=-eq-ok (ObjectStore.init base tree) (λ tree₁. ok (tree₁, todo, s₁))
                (rw hit at e₁) in
            let mode = init-mode base tree copy copied in
            let same : s₁ ≡ s' = cc in
            let same_tree : copy ≡ tree' = cc in
            (
              ap (λ (st : ObjectStore C). st.objs) (sym same) ∙ kept,
              ap (λ (ob : Object C). ob.mode) (sym same_tree) ∙ mode,
            )
      ]

  run_stages-failure :
      (bt : BuildTree C) (runner : Runner) (todo : List Stage) (tree : Object C)
      (results results' : List StageResult) (s t : ObjectStore C) (id : Option String)
      → tree.mode ≡ write
      → all_success results ≡ true
      → run_stages h k exec bt runner todo tree results s ≡ ok (results', t)
      → all_success results' ≡ false
      → IsStopped results'
        × (ObjectStore.get_floating id t.objs ≡ ObjectStore.get_floating id s.objs)
  unfolding run_stages join
  run_stages-failure bt runner [] tree results results' s t id mode good e bad =
      let same : results ≡ results' = cc in cc
  run_stages-failure bt runner (stage ∷ todo) tree results results' s t id mode good e bad =
      let (content, exit) = exec bt runner stage tree.content in
      let built : Object C = record tree { content = content } in
      let r = stage_result_init h stage exit in
      elim (Bool-cases r.success) [
        | inr failed ↦
            let ended : ok (results ++ r ∷ [], join h k exec built s) ≡ ok (results', t) =
              (rw (failed, run_stages) at e) in
            let same : join h k exec built s ≡ t = cc in
            let all : results ++ r ∷ [] ≡ results' = cc in
            (
              (results, r, sym all, good, failed),
              subst
                  (λ (st : ObjectStore C).
                    ObjectStore.get_floating id st.objs ≡ ObjectStore.get_floating id s.objs)
                  same (get_floating-snoc id s.objs built mode),
            )
        | inl done ↦
            let more : all_success (results ++ r ∷ []) ≡ true =
              all_success-snoc results r ∙ rw (good, done) in
            elim (Bool-cases stage.checkpoint) [
              | inr plain ↦
                  run_stages-failure bt runner todo built (results ++ r ∷ []) results' s t id mode
                    more (rw (done, plain, run_stages) at e) bad
              | inl marked ↦
                  let ((obj, s₁), committed, later) =
                    >>=-eq-ok (ObjectStore.commit k built (stage_id h stage) s) _
                      (rw (done, marked, run_stages) at e) in
                  let (kept, same_mode) =
                    commit-objs k built obj (stage_id h stage) s s₁ committed in
                  let (stopped, same) =
                    run_stages-failure bt runner todo obj (results ++ r ∷ []) results' s₁ t id
                      (same_mode ∙ mode) more later bad in
                  (stopped, same ∙ ap (ObjectStore.get_floating id) kept)
            ]
      ]

  -- When a build past the checks returns with a failure, all stages that ran but the last one
  -- succeeded, the last one failed, and under every id the store's objects in memory give
  -- what they gave before: the object under construction is not handed out.
  pub build_missing-failure :
      (pl : Pipeline) (s t : ObjectStore C) (results : List StageResult) (id : Option String)
      → build_missing h k exec pl s ≡ ok (results, t)
      → all_success results ≡ false
      → IsStopped results
        × (ObjectStore.get_floating id t.objs ≡ ObjectStore.get_floating id s.objs)
  unfolding build_missing all_success
  build_missing-failure pl s t results id e bad =
      let ((bt, s₁), found, e₁) = >>=-eq-ok (find_build_tree h k exec pl.build s) _ e in
      let (new_tree, opened, e₂) = >>=-eq-ok (ObjectStore.new k (pipeline_id h pl) s₁) _ e₁ in
      let draft : Object C = record new_tree { source_epoch = pl.source_epoch } in
      let ((tree, todo, s₂), chosen, e₃) =
        >>=-eq-ok (plan h k exec (reverse pl.stages) [] draft s₁) _ e₂ in
      let (kept, same_mode) = plan-objs (reverse pl.stages) [] todo draft tree s₁ s₂ chosen in
      let mode = new-mode k (pipeline_id h pl) s₁ new_tree opened in
      let (stopped, same) =
        run_stages-failure bt pl.runner todo tree [] results s₂ t id (same_mode ∙ mode) refl e₃
          bad in
      (
        stopped,
        same
            ∙ ap (ObjectStore.get_floating id) (kept ∙ find_build_tree-objs pl.build s s₁ bt found),
      )

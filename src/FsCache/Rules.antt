-- ===== src/FsCache/Rules.antt =====
-- Proof rules for the loop of `_remove_lru` and for `store` of osbuild/util/fscache.py: a predicate
-- that each of their steps keeps holds of the final state.
use osbuild.Prelude.{
  ℕ, ◌+◌, String, Bool, true, false, not, ◌*◌, Option, some, List, [], ◌∷◌, leb, Result, ok, err,
  ◌≡◌, refl, Bool-cases, ◌⊎◌, inl, inr, arith, truthy_text,
}
use osbuild.Prelude.Dict
use osbuild.Prelude.Int.{pos}
use osbuild.FsCache.{Entry, FsCache, is_free, update_cache_size, rm_r_object, is_compatible}
use osbuild.FsCache.Lru.{
  Space, ObjectUse, Round, round, evict, remove_uses, remove_lru, gone, busy, removed,
  last_used_objs,
}
use osbuild.FsCache.Store.{store, anonymous, fits, make_room, commit, finish, or_retry, retry}

pub Round-cases :
    {C : Type 0} (r : Round C) → (r ≡ gone) ⊎ ((r ≡ busy) ⊎ ((e : Entry C) × (r ≡ removed e)))
Round-cases gone = inl refl
Round-cases busy = inr (inl refl)
Round-cases (removed e) = inr (inr (e, refl))

module _ {C : Type 0} where
  -- Only a free entry is removed.
  pub removed-free :
      (u : ObjectUse) (o : Option (Entry C)) (e : Entry C)
      → round u o ≡ removed e
      → (o ≡ some e) × (is_free e.lock ≡ true) × (u.last_used ≡ e.atime)
  unfolding round
  removed-free u o e h = ground arith

module _ {C : Type 0} (sp : Space C) (P : FsCache C → Type 0)
    (keeps : (u : ObjectUse) (e : Entry C) (s : FsCache C)
      → Dict.get u.name s.objects ≡ some e
      → is_free e.lock ≡ true
      → P s
      → P (evict sp u.name e s)) where
  pub remove_uses_ind :
      (goal freed : ℕ) (us : List ObjectUse) (s : FsCache C)
      → P s
      → P (remove_uses sp goal freed us s).0
  unfolding remove_uses
  remove_uses_ind goal freed [] s p = p
  remove_uses_ind goal freed (u ∷ us) s p =
      elim (Round-cases (round u (Dict.get u.name s.objects))) [
        | inl e ↦ rw (e, remove_uses) p
        | inr (inl e) ↦ rw (e, remove_uses) (remove_uses_ind goal freed us s p)
        | inr (inr (entry, e)) ↦
            rw (e, remove_uses)
              (let (found, open_, used) = removed-free u (Dict.get u.name s.objects) entry e in
                let kept = keeps u entry s found open_ p in
                elim (Bool-cases (leb goal (freed + sp.of_entry entry))) [
                  | inl done ↦ rw done kept
                  | inr more ↦ rw more (
                      remove_uses_ind goal (freed + sp.of_entry entry) us (evict sp u.name entry s)
                        kept)
                ])
      ]

-- The steps of `store` for one new entry.
pub record StoreSteps {C : Type 0} (sp : Space C) (P : FsCache C → Type 0) (name uuidname : String)
    (now : ℕ) (content : C) : Type 0 where
  pub enter :
      (s : FsCache C)
      → P s
      → P (record s { objects = Dict.put uuidname (anonymous sp now content) s.objects })
  pub leave : (s : FsCache C) → P s → P (rm_r_object uuidname s)
  pub grow : (n : ℕ) (s : FsCache C) → P s → P (update_cache_size (pos n) s).0
  pub evicts :
      (u : ObjectUse) (e : Entry C) (s : FsCache C)
      → Dict.get u.name s.objects ≡ some e
      → is_free e.lock ≡ true
      → P s
      → P (evict sp u.name e s)
  pub commits :
      (s : FsCache C) → P s → P (commit sp name uuidname now (sp.of_data content) content s).0

module _ {C : Type 0} (sp : Space C) (P : FsCache C → Type 0) (name uuidname : String) (now : ℕ)
    (content : C) (steps : StoreSteps sp P name uuidname now content) where
  open steps use {enter, leave, grow, evicts, commits}

  retry_keeps : (size : ℕ) (r : FsCache C × Result ℕ) → P r.0 → P (retry sp size r).0
  retry_keeps size (s, err e) p = p
  retry_keeps size (s, ok freed) p = grow size s p

  or_retry_keeps : (size : ℕ) (r : FsCache C × Bool) → P r.0 → P (or_retry sp size r).0
  unfolding remove_lru
  or_retry_keeps size (s, true) p = p
  or_retry_keeps size (s, false) p =
      retry_keeps size (remove_lru sp size s)
        (remove_uses_ind sp P evicts (size * 2) 0 (last_used_objs s) s p)

  make_room_keeps : (size : ℕ) (s : FsCache C) → P s → P (make_room sp size s).0
  unfolding make_room
  make_room_keeps size s p = or_retry_keeps size (update_cache_size (pos size) s) (grow size s p)

  finish_keeps :
      (r : FsCache C × Result Bool)
      → P r.0
      → P (finish sp name uuidname now (sp.of_data content) content r).0
  finish_keeps (s, err e) p = leave s p
  finish_keeps (s, ok false) p = leave s p
  finish_keeps (s, ok true) p = commits s p

  pub store_ind : (s : FsCache C) → P s → P (store sp name uuidname now content s).0
  unfolding store
  store_ind s p =
      let entered : FsCache C = record s {
        objects = Dict.put uuidname (anonymous sp now content) s.objects;
      } in
      elim (Bool-cases (not (truthy_text name))) [
        | inl e ↦ rw e p
        | inr named ↦ elim (Bool-cases (not (is_compatible s))) [
          | inl e ↦ rw (named, e) p
          | inr compatible ↦ elim (Bool-cases (not (fits sp (sp.of_data content) s))) [
            | inl e ↦ rw (named, compatible, e) (leave entered (enter s p))
            | inr fit ↦
                rw (named, compatible, fit)
                  (finish_keeps (make_room sp (sp.of_data content) entered)
                    (make_room_keeps (sp.of_data content) entered (enter s p)))
          ]
        ]
      ]

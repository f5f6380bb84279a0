-- ===== src/FsCache/Sorting.antt =====
-- osbuild/util/fscache.py: the list of `_last_used_objs`.
use osbuild.Prelude.{
  ◌≤◌, List, [], ◌∷◌, leb, ◌≡◌, Bool-cases, ◌⊎◌, inl, inr, arith, Has, All, All-imp,
}
use osbuild.FsCache.Lru.{ObjectUse, insert_use, sort_uses}

-- Oldest first.
abbrev pub IsSorted : List ObjectUse → Type 0
IsSorted [] = Unit
IsSorted (u ∷ us) = All (λ (v : ObjectUse). u.last_used ≤ v.last_used) us × IsSorted us

insert_use-Has_later :
    (u v w : ObjectUse) (us : List ObjectUse)
    → (v ≡ u) ⊎ Has v (w ∷ us)
    → ((v ≡ u) ⊎ Has v us → Has v (insert_use u us))
    → Has v (w ∷ insert_use u us)
insert_use-Has_later u v w us (inl e) k = inr (k (inl e))
insert_use-Has_later u v w us (inr (inl e)) k = inl e
insert_use-Has_later u v w us (inr (inr h)) k = inr (k (inr h))

insert_use-Has :
    (u v : ObjectUse) (us : List ObjectUse) → (v ≡ u) ⊎ Has v us → Has v (insert_use u us)
unfolding insert_use
insert_use-Has u v [] h = h
insert_use-Has u v (w ∷ us) h = elim (Bool-cases (leb u.last_used w.last_used)) [
  | inl e ↦ rw e h
  | inr e ↦ rw e (insert_use-Has_later u v w us h (λ q. insert_use-Has u v us q))
]

insert_use-All :
    (P : ObjectUse → Type 0) (u : ObjectUse) (us : List ObjectUse)
    → P u
    → All P us
    → All P (insert_use u us)
unfolding insert_use
insert_use-All P u [] p h = (p, tt)
insert_use-All P u (w ∷ us) p h = elim (Bool-cases (leb u.last_used w.last_used)) [
  | inl e ↦ rw e (p, h)
  | inr e ↦ rw e (h.0, insert_use-All P u us p h.1)
]

insert_use-IsSorted :
    (u : ObjectUse) (us : List ObjectUse) → IsSorted us → IsSorted (insert_use u us)
unfolding insert_use
insert_use-IsSorted u [] h = (tt, tt)
insert_use-IsSorted u (w ∷ us) h = elim (Bool-cases (leb u.last_used w.last_used)) [
  | inl e ↦
      let first : u.last_used ≤ w.last_used = ground arith in
      rw e ((first, All-imp _ _ us (λ v le. omega arith) h.0), h)
  | inr e ↦
      let first : w.last_used ≤ u.last_used = ground arith in
      rw e (insert_use-All _ u us first h.0, insert_use-IsSorted u us h.1)
]

pub sort_uses-IsSorted : (us : List ObjectUse) → IsSorted (sort_uses us)
unfolding sort_uses
sort_uses-IsSorted [] = tt
sort_uses-IsSorted (u ∷ us) = insert_use-IsSorted u (sort_uses us) (sort_uses-IsSorted us)

pub sort_uses-Has : (v : ObjectUse) (us : List ObjectUse) → Has v us → Has v (sort_uses us)
unfolding sort_uses
sort_uses-Has v [] h = h
sort_uses-Has v (u ∷ us) (inl e) = insert_use-Has u v (sort_uses us) (inl e)
sort_uses-Has v (u ∷ us) (inr h) = insert_use-Has u v (sort_uses us) (inr (sort_uses-Has v us h))

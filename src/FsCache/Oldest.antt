-- ===== src/FsCache/Oldest.antt =====
-- osbuild/util/fscache.py: the order in which `_remove_lru` takes entries.
use osbuild.Prelude.{
  ℕ, ◌+◌, ◌*◌, ◌≤◌, String, ◌==◌, eq_iff, true, false, Option, none, some, List, [], ◌∷◌,
  if◌then◌else◌, leb, ok, ◌≡◌, ◌∙◌, ap, subst, Bool-cases, inl, inr, arith, Has, All_at, text_cases,
}
use osbuild.Prelude.Dict
use osbuild.Prelude.Dict.{Dict}
use osbuild.FsCache.{Entry, FsCache, is_free}
use osbuild.FsCache.Lru.{
  Space, ObjectUse, round, evict, remove_uses, remove_lru, removed, uses, last_used_objs,
}
use osbuild.FsCache.Rules.{Round-cases, removed-free, remove_uses_ind}
use osbuild.FsCache.Evict.{get-evict}
use osbuild.FsCache.Sorting.{IsSorted, sort_uses-IsSorted, sort_uses-Has}

module _ {C : Type 0} where
  -- The line of the list that an entry makes.
  abbrev use_of : String → Entry C → ObjectUse
  use_of name e = record { name = name; last_used = e.atime }

  uses-Has :
      (name : String) (d : Dict (Entry C)) (e : Entry C)
      → Dict.get name d ≡ some e
      → Has (use_of name e) (uses d)
  unfolding uses Dict.get
  uses-Has name [] e h = cc
  uses-Has name ((j, w) ∷ d) e h = elim (Bool-cases (j == name)) [
    | inl same ↦ inl (ground (arith, eq_iff j name))
    | inr other ↦ inr (uses-Has name d e (rw other at h))
  ]

  round-use_of :
      (name : String) (e : Entry C)
      → is_free e.lock ≡ true
      → round (use_of name e) (some e) ≡ removed e
  unfolding round
  round-use_of name e open_ = ground arith

  -- A free entry in the list is not passed by.
  own_round :
      (u : ObjectUse) (j : String) (e : Entry C) (s : FsCache C)
      → use_of j e ≡ u
      → is_free e.lock ≡ true
      → Dict.get j s.objects ≡ some e
      → round u (Dict.get u.name s.objects) ≡ removed e
  own_round u j e s same open_ found =
      subst (λ (v : ObjectUse). round v (Dict.get v.name s.objects) ≡ removed e) same
        (rw found (round-use_of j e open_))

module _ {C : Type 0} (sp : Space C) where
  -- The loop brings nothing back.
  stays_gone :
      (goal freed : ℕ) (us : List ObjectUse) (s : FsCache C) (j : String)
      → Dict.get j s.objects ≡ none
      → Dict.get j (remove_uses sp goal freed us s).0.objects ≡ none
  stays_gone goal freed us s j =
      remove_uses_ind sp (λ t. Dict.get j t.objects ≡ none)
        (λ u e t found open_ h. rw get-evict (ground arith)) goal freed us s

  evicted :
      (j name : String) (d : Entry C) (s : FsCache C)
      → name ≡ j
      → Dict.get j (evict sp name d s).objects ≡ none
  evicted j name d s same = rw get-evict (ground (arith, eq_iff name j))

  not_evicted :
      (j name : String) (d : Entry C) (s : FsCache C)
      → (name == j) ≡ false
      → Dict.get j (evict sp name d s).objects ≡ Dict.get j s.objects
  not_evicted j name d s apart = rw get-evict (rw apart)

  abbrev Gives : String → Option (Entry C) → FsCache C → Type 0
  Gives j o s = Dict.get j s.objects ≡ o

  remove_step :
      (goal freed : ℕ) (u : ObjectUse) (us : List ObjectUse) (s : FsCache C) (d : Entry C)
      → round u (Dict.get u.name s.objects) ≡ removed d
      → remove_uses sp goal freed (u ∷ us) s ≡ (
          if leb goal (freed + sp.of_entry d)
          then (evict sp u.name d s, ok (freed + sp.of_entry d))
          else remove_uses sp goal (freed + sp.of_entry d) us (evict sp u.name d s))
  unfolding remove_uses
  remove_step goal freed u us s d e = rw (e, remove_uses)

  -- The entry that goes is no younger than one that stands later in the list.
  head_oldest :
      (u : ObjectUse) (us : List ObjectUse) (s : FsCache C) (j k : String) (kept lost d : Entry C)
      → IsSorted (u ∷ us)
      → Has (use_of j kept) (u ∷ us)
      → round u (Dict.get u.name s.objects) ≡ removed d
      → (u.name == j) ≡ false
      → u.name ≡ k
      → Gives k (some lost) s
      → lost.atime ≤ kept.atime
  head_oldest u us s j k kept lost d sorted (inl same) e apart named gk =
      let here : j ≡ u.name = ap (λ (v : ObjectUse). v.name) same in ground (arith, eq_iff u.name j)
  head_oldest u us s j k kept lost d sorted (inr later) e apart named gk =
      let (found, open_, used) = removed-free u (Dict.get u.name s.objects) d e in
      let same : some d ≡ some lost = cc in
      let same_entry : d ≡ lost = cc in
      let same_time : d.atime ≡ lost.atime = ap (λ (x : Entry C). x.atime) same_entry in
      let bound =
        All_at (λ (v : ObjectUse). u.last_used ≤ v.last_used) us (use_of j kept) sorted.0 later in
      omega arith

  not_head :
      (u : ObjectUse) (us : List ObjectUse) (j : String) (kept : Entry C)
      → (u.name == j) ≡ false
      → Has (use_of j kept) (u ∷ us)
      → Has (use_of j kept) us
  not_head u us j kept apart (inl same) =
      let here : j ≡ u.name = ap (λ (v : ObjectUse). v.name) same in
      absurd (ground (arith, eq_iff u.name j))
  not_head u us j kept apart (inr later) = later

  oldest_loop :
      (goal freed : ℕ) (us : List ObjectUse) (s : FsCache C) (j k : String) (kept lost : Entry C)
      → IsSorted us
      → Has (use_of j kept) us
      → is_free kept.lock ≡ true
      → Gives j (some kept) s
      → Gives k (some lost) s
      → Gives j (some kept) (remove_uses sp goal freed us s).0
      → Gives k none (remove_uses sp goal freed us s).0
      → lost.atime ≤ kept.atime
  unfolding remove_uses
  oldest_loop goal freed [] s j k kept lost sorted listed open_ gj gk aj ak = absurd listed
  oldest_loop goal freed (u ∷ us) s j k kept lost sorted listed open_ gj gk aj ak =
      elim (Round-cases (round u (Dict.get u.name s.objects))) [
        | inl e ↦ let never : Gives k none s = (rw (e, remove_uses) at ak) in cc
        | inr (inl e) ↦ elim listed [
          | inl same ↦ let own = own_round u j kept s same open_ gj in cc
          | inr later ↦
              oldest_loop goal freed us s j k kept lost sorted.1 later open_ gj gk
                (rw (e, remove_uses) at aj) (rw (e, remove_uses) at ak)
        ]
        | inr (inr (d, e)) ↦ elim (Bool-cases (leb goal (freed + sp.of_entry d))) [
          | inl done ↦
              let step = remove_step goal freed u us s d e in
              let aj' : Gives j (some kept) (evict sp u.name d s) = (rw (step, done) at aj) in
              let ak' : Gives k none (evict sp u.name d s) = (rw (step, done) at ak) in
              elim (text_cases u.name j) [
                | inl own ↦ let out = evicted j u.name d s own in cc
                | inr apart ↦ elim (text_cases u.name k) [
                  | inl named ↦ head_oldest u us s j k kept lost d sorted listed e apart named gk
                  | inr other ↦ let still = not_evicted k u.name d s other in cc
                ]
              ]
          | inr more ↦
              let step = remove_step goal freed u us s d e in
              let next = freed + sp.of_entry d in
              let t = evict sp u.name d s in
              let aj' : Gives j (some kept) (remove_uses sp goal next us t).0 =
                (rw (step, more) at aj) in
              let ak' : Gives k none (remove_uses sp goal next us t).0 = (rw (step, more) at ak) in
              elim (text_cases u.name j) [
                | inl own ↦ let out = stays_gone goal next us t j (evicted j u.name d s own) in cc
                | inr apart ↦ elim (text_cases u.name k) [
                  | inl named ↦ head_oldest u us s j k kept lost d sorted listed e apart named gk
                  | inr other ↦
                      oldest_loop goal next us t j k kept lost sorted.1
                        (not_head u us j kept apart listed) open_
                        (not_evicted j u.name d s apart ∙ gj) (not_evicted k u.name d s other ∙ gk)
                        aj' ak'
                ]
              ]
        ]
      ]

  -- The eviction is by age: if an entry is gone after `_remove_lru` and one that nobody holds a lock
  -- on is still there, then the one that is gone was not used more recently.
  pub remove_lru-oldest :
      (required : ℕ) (s : FsCache C) (j k : String) (kept lost : Entry C)
      → is_free kept.lock ≡ true
      → Dict.get j s.objects ≡ some kept
      → Dict.get k s.objects ≡ some lost
      → Dict.get j (remove_lru sp required s).0.objects ≡ some kept
      → Dict.get k (remove_lru sp required s).0.objects ≡ none
      → lost.atime ≤ kept.atime
  unfolding remove_lru last_used_objs
  remove_lru-oldest required s j k kept lost open_ gj gk aj ak =
      oldest_loop (required * 2) 0 (last_used_objs s) s j k kept lost
        (sort_uses-IsSorted (uses s.objects))
        (sort_uses-Has (use_of j kept) (uses s.objects) (uses-Has j s.objects kept gj)) open_ gj gk
        aj ak

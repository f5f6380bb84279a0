-- ===== src/Prelude/Dict.antt =====
-- Python's `dict` and `OrderedDict` with text keys, in insertion order: a write to a key that is
-- there keeps its place.
use osbuild.Prelude.{
  Bool, true, false, String, ◌==◌, eq_iff, eq_refl, ◌≡◌, ◌≢◌, refl, Option, none, some, List, [],
  ◌∷◌, arith, if◌then◌else◌, Has, inl, inr, Bool-cases,
}

abbrev pub Dict {ℓ} : Type ℓ → Type ℓ
Dict V = List (String × V)

module _ {ℓ} {V : Type ℓ} where
  unfoldable pub get : String → Dict V → Option V
  get k [] = none
  get k ((j, v) ∷ d) = if j == k then some v else get k d

  unfoldable pub put : String → V → Dict V → Dict V
  put k v [] = (k, v) ∷ []
  put k v ((j, w) ∷ d) = if j == k then (j, v) ∷ d else (j, w) ∷ put k v d

  unfoldable pub has : String → Dict V → Bool
  has k [] = false
  has k ((j, v) ∷ d) = if j == k then true else has k d

  -- `del d[k]`, `pop(k, None)`
  unfoldable pub remove : String → Dict V → Dict V
  remove k [] = []
  remove k ((j, v) ∷ d) = let rest = remove k d in if j == k then rest else (j, v) ∷ rest

  unfoldable pub keys : Dict V → List String
  keys [] = []
  keys ((j, v) ∷ d) = j ∷ keys d

  unfoldable pub values : Dict V → List V
  values [] = []
  values ((j, v) ∷ d) = v ∷ values d

  pub get-put :
      (k j : String) (v : V) (d : Dict V) → get j (put k v d) ≡ (if k == j then some v else get j d)
  unfolding get put
  get-put k j v [] = refl
  get-put k j v ((i, w) ∷ d) = ground (arith, eq_iff k j, eq_iff i k, eq_iff i j, get-put k j v d)

  pub get-put_self : (k : String) (v : V) (d : Dict V) → get k (put k v d) ≡ some v
  get-put_self k v d = simp (get-put, eq_refl)

  pub get-remove :
      (k j : String) (d : Dict V) → get j (remove k d) ≡ (if k == j then none else get j d)
  unfolding get remove
  get-remove k j [] = ground arith
  get-remove k j ((i, w) ∷ d) = ground (arith, eq_iff k j, eq_iff i k, eq_iff i j, get-remove k j d)

  pub get-put_ne : (k j : String) (v : V) (d : Dict V) → j ≢ k → get j (put k v d) ≡ get j d
  get-put_ne k j v d ne = rw get-put (ground (arith, eq_iff k j))

  pub get-remove_ne : (k j : String) (d : Dict V) → j ≢ k → get j (remove k d) ≡ get j d
  get-remove_ne k j d ne = rw get-remove (ground (arith, eq_iff k j))

  pub has-put :
      (k j : String) (v : V) (d : Dict V) → has j (put k v d) ≡ (if k == j then true else has j d)
  unfolding has put
  has-put k j v [] = refl
  has-put k j v ((i, w) ∷ d) = ground (arith, eq_iff k j, eq_iff i k, eq_iff i j, has-put k j v d)

  pub get_of_has : (k : String) (d : Dict V) → has k d ≡ true → (v : V) × (get k d ≡ some v)
  unfolding has get
  get_of_has k [] h = cc
  get_of_has k ((j, w) ∷ d) h = elim (Bool-cases (j == k)) [
    | inl e ↦ (w, rw e)
    | inr e ↦ rw e (get_of_has k d (rw e at h))
  ]

  pub none_of_has : (k : String) (d : Dict V) → has k d ≡ false → get k d ≡ none
  unfolding has get
  none_of_has k [] h = refl
  none_of_has k ((j, w) ∷ d) h = ground (arith, none_of_has k d)

pub get-Has : {V : Type 0} (k : String) (d : Dict V) {v : V} → get k d ≡ some v → Has v (values d)
unfolding get values
get-Has k [] h = cc
get-Has k ((j, w) ∷ d) h = elim (Bool-cases (j == k)) [
  | inl e ↦ inl (ground arith)
  | inr e ↦ inr (get-Has k d (ground arith))
]

pub ruleset dict_laws = (get-put, get-remove, has-put)

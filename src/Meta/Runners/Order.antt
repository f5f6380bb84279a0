-- ===== src/Meta/Runners/Order.antt =====
-- osbuild/meta.py: the order in which `list_runners` sorts the runners.
use Prim.Native.Nat.{Ordering, compare}
use Prim.Native.Char.{code}
use Prim.Native.String
use Prim.Native.String.{[], ◌∷◌, then as lexicographic}
use Prim.Native.String.compare.{nil-cons, cons-nil, cons-cons}
use osbuild.Prelude.{
  ℕ, ◌≤◌, String, Bool, true, false, List, [], ◌∷◌, leb, ◌↔◌, ◌≡◌, refl, sym, subst, ◌⊎◌, inl, inr,
  Bool-cases, arith, Has, All, All-imp,
}
use text.Mathlib.TextEquality.{path_by_compare}
use text.Mathlib.TextPositions.{compare_refl}
use osbuild.Meta.Runners.{RunnerInfo, le_runner, insert_runner, sort_runners}

lexicographic-lt_trans :
    (m n p : ℕ) (o o' o'' : Ordering)
    → (o ≡ Ordering.lt → o' ≡ Ordering.lt → o'' ≡ Ordering.lt)
    → lexicographic (compare m n) o ≡ Ordering.lt
    → lexicographic (compare n p) o' ≡ Ordering.lt
    → lexicographic (compare m p) o'' ≡ Ordering.lt
lexicographic-lt_trans m n p o o' o'' f h k = ground arith

lexicographic-flip :
    (m n : ℕ) (o o' : Ordering)
    → (o ≡ Ordering.gt → o' ≡ Ordering.lt)
    → lexicographic (compare m n) o ≡ Ordering.gt
    → lexicographic (compare n m) o' ≡ Ordering.lt
lexicographic-flip m n o o' f h = ground arith

compare-lt_trans :
    (a b c : String)
    → String.compare a b ≡ Ordering.lt
    → String.compare b c ≡ Ordering.lt
    → String.compare a c ≡ Ordering.lt
compare-lt_trans [] [] [] h k = h
compare-lt_trans [] (y ∷ b) [] h k = let never = (rw cons-nil at k) in cc
compare-lt_trans [] b (z ∷ c) h k = nil-cons z c
compare-lt_trans (x ∷ a) [] c h k = let never = (rw cons-nil at h) in cc
compare-lt_trans (x ∷ a) (y ∷ b) [] h k = let never = (rw cons-nil at k) in cc
compare-lt_trans (x ∷ a) (y ∷ b) (z ∷ c) h k = rw (cons-cons x z a c) (
    lexicographic-lt_trans (code x) (code y) (code z) (String.compare a b) (String.compare b c)
      (String.compare a c) (compare-lt_trans a b c) (rw (cons-cons x y a b) at h)
      (rw (cons-cons y z b c) at k))

compare-flip : (a b : String) → String.compare a b ≡ Ordering.gt → String.compare b a ≡ Ordering.lt
compare-flip [] [] h = cc
compare-flip [] (y ∷ b) h = let never = (rw nil-cons at h) in cc
compare-flip (x ∷ a) [] h = nil-cons x a
compare-flip (x ∷ a) (y ∷ b) h = rw (cons-cons y x b a) (
    lexicographic-flip (code x) (code y) (String.compare a b) (String.compare b a)
      (compare-flip a b) (rw (cons-cons x y a b) at h))

pub order-cases : (o : Ordering) → (o ≡ Ordering.lt) ⊎ ((o ≡ Ordering.eq) ⊎ (o ≡ Ordering.gt))
order-cases Ordering.lt = inl refl
order-cases Ordering.eq = inr (inl refl)
order-cases Ordering.gt = inr (inr refl)

abbrev pub le_pair : String → ℕ → String → ℕ → Bool
le_pair s m t n = elim (String.compare s t) [
  | Ordering.lt ↦ true
  | Ordering.eq ↦ leb m n
  | Ordering.gt ↦ false
]

le_pair_trans :
    (s t u : String) (m n p : ℕ)
    → le_pair s m t n ≡ true
    → le_pair t n u p ≡ true
    → le_pair s m u p ≡ true
le_pair_trans s t u m n p h k = elim (order-cases (String.compare s t)) [
  | inr (inl same) ↦
      let le : leb m n ≡ true = (rw (same, le_pair) at h) in
      subst (λ x. le_pair x m u p ≡ true) (sym (path_by_compare s t same)) (ground (arith, le_pair))
  | inr (inr more) ↦ let never : false ≡ true = (rw (more, le_pair) at h) in cc
  | inl less ↦ elim (order-cases (String.compare t u)) [
    | inl less' ↦ rw (compare-lt_trans s t u less less', le_pair) refl
    | inr (inl same) ↦
        subst (λ x. le_pair s m x p ≡ true) (path_by_compare t u same) (rw (less, le_pair) refl)
    | inr (inr more) ↦ let never : false ≡ true = (rw (more, le_pair) at k) in cc
  ]
]

le_pair-total : (s t : String) (m n : ℕ) → le_pair s m t n ≡ false → le_pair t n s m ≡ true
le_pair-total s t m n h = elim (order-cases (String.compare s t)) [
  | inl less ↦ let never : true ≡ false = (rw (less, le_pair) at h) in cc
  | inr (inr more) ↦ rw (compare-flip s t more, le_pair) refl
  | inr (inl same) ↦
      let less : leb m n ≡ false = (rw (same, le_pair) at h) in
      subst (λ x. le_pair t n x m ≡ true) (sym (path_by_compare s t same))
        (rw (compare_refl t, le_pair) (ground arith))
]

pub le_pair-version : (s : String) (m n : ℕ) → le_pair s m s n ≡ true → m ≤ n
le_pair-version s m n h =
    let le : leb m n ≡ true = (rw (compare_refl s, le_pair) at h) in ground arith

abbrev pub IsAscending : List RunnerInfo → Type 0
IsAscending [] = Unit
IsAscending (r ∷ rs) = All (λ (x : RunnerInfo). le_runner r x ≡ true) rs × IsAscending rs

insert_runner-All :
    (P : RunnerInfo → Type 0) (r : RunnerInfo) (rs : List RunnerInfo)
    → P r
    → All P rs
    → All P (insert_runner r rs)
unfolding insert_runner
insert_runner-All P r [] p a = (p, tt)
insert_runner-All P r (x ∷ xs) p a = elim (Bool-cases (le_runner r x)) [
  | inl le ↦ rw le (p, a)
  | inr gt ↦ rw gt (a.0, insert_runner-All P r xs p a.1)
]

insert_runner-IsAscending :
    (r : RunnerInfo) (rs : List RunnerInfo) → IsAscending rs → IsAscending (insert_runner r rs)
unfolding insert_runner
insert_runner-IsAscending r [] a = (tt, tt)
insert_runner-IsAscending r (x ∷ xs) a = elim (Bool-cases (le_runner r x)) [
  | inl le ↦ rw le (
    (
      le,
      All-imp _ _ xs
          (λ y k. le_pair_trans r.distro x.distro y.distro r.version x.version y.version le k) a.0,
    ),
    a,
  )
  | inr gt ↦
      let first : le_runner x r ≡ true = le_pair-total r.distro x.distro r.version x.version gt in
      rw gt (insert_runner-All _ r xs first a.0, insert_runner-IsAscending r xs a.1)
]

pub sort_runners-IsAscending : (rs : List RunnerInfo) → IsAscending (sort_runners rs)
unfolding sort_runners
sort_runners-IsAscending [] = tt
sort_runners-IsAscending (r ∷ rs) =
    insert_runner-IsAscending r (sort_runners rs) (sort_runners-IsAscending rs)

insert_runner-Has_later :
    (r x y : RunnerInfo) (ys : List RunnerInfo)
    → Has x (insert_runner r ys) ↔ ((x ≡ r) ⊎ Has x ys)
    → Has x (y ∷ insert_runner r ys) ↔ ((x ≡ r) ⊎ Has x (y ∷ ys))
insert_runner-Has_later r x y ys (there, back) = (into, onto)
  where
    into : Has x (y ∷ insert_runner r ys) → (x ≡ r) ⊎ Has x (y ∷ ys)
    into (inl e) = inr (inl e)
    into (inr w) = elim (there w) [ inl e ↦ inl e | inr v ↦ inr (inr v) ]

    onto : (x ≡ r) ⊎ Has x (y ∷ ys) → Has x (y ∷ insert_runner r ys)
    onto (inl e) = inr (back (inl e))
    onto (inr (inl e)) = inl e
    onto (inr (inr w)) = inr (back (inr w))

insert_runner-Has :
    (r x : RunnerInfo) (rs : List RunnerInfo) → Has x (insert_runner r rs) ↔ ((x ≡ r) ⊎ Has x rs)
unfolding insert_runner
insert_runner-Has r x [] = (λ w. w, λ w. w)
insert_runner-Has r x (y ∷ ys) = elim (Bool-cases (le_runner r y)) [
  | inl le ↦ rw le (λ w. w, λ w. w)
  | inr gt ↦ rw gt (insert_runner-Has_later r x y ys (insert_runner-Has r x ys))
]

pub sort_runners-Has : (x : RunnerInfo) (rs : List RunnerInfo) → Has x (sort_runners rs) ↔ Has x rs
unfolding sort_runners
sort_runners-Has x [] = (λ w. w, λ w. w)
sort_runners-Has x (r ∷ rs) =
    let (there, back) = insert_runner-Has r x (sort_runners rs) in
    let (in_, out) = sort_runners-Has x rs in
    (
      λ w. elim (there w) [ inl e ↦ inl e | inr v ↦ inr (in_ v) ],
      λ w. back (elim w [ inl e ↦ inl e | inr v ↦ inr (out v) ]),
    )

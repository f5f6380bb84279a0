-- ===== src/Lvm2/Struct/Files.antt =====
-- osbuild/util/lvm2.py: what is read back from a file that was written.
use osbuild.Prelude.{
  ℕ, zero, suc, ◌+◌, ◌-◌, ◌≤◌, ◌<◌, List, [], ◌∷◌, ◌++◌, length, ◌≡◌, refl, ap, ◌∙◌, subst, arith,
}
use osbuild.Lvm2.Struct.{Bytes, take, drop, overwrite, write_at}

module _ {A : Type 0} where
  pub take-append : (xs ys : List A) → take (length xs) (xs ++ ys) ≡ xs
  unfolding take
  take-append [] ys = refl
  take-append (x ∷ xs) ys = ap (λ s. x ∷ s) (take-append xs ys)

  pub drop-append : (xs ys : List A) → drop (length xs) (xs ++ ys) ≡ ys
  unfolding drop
  drop-append [] ys = refl
  drop-append (x ∷ xs) ys = drop-append xs ys

  pub take-append_whole : {k : ℕ} (xs ys : List A) → length xs ≡ k → take k (xs ++ ys) ≡ xs
  take-append_whole xs ys e = subst (λ k. take k (xs ++ ys) ≡ xs) e (take-append xs ys)

  pub drop-append_whole : {k : ℕ} (xs ys : List A) → length xs ≡ k → drop k (xs ++ ys) ≡ ys
  drop-append_whole xs ys e = subst (λ k. drop k (xs ++ ys) ≡ ys) e (drop-append xs ys)

  pub take-append_more :
      (n : ℕ) (xs ys : List A) → length xs ≤ n → take n (xs ++ ys) ≡ xs ++ take (n - length xs) ys
  unfolding take
  take-append_more n [] ys h = ap (λ k. take k ys) (omega arith)
  take-append_more zero (x ∷ xs) ys h = absurd (omega arith)
  take-append_more (suc n) (x ∷ xs) ys h =
      ap (λ s. x ∷ s)
        (take-append_more n xs ys (omega arith) ∙ ap (λ k. xs ++ take k ys) (omega arith))

overwrite-append : (bs f : Bytes) → overwrite bs f ≡ bs ++ drop (length bs) f
unfolding overwrite drop
overwrite-append [] f = refl
overwrite-append (b ∷ bs) [] = ap (λ s. b ∷ s) (overwrite-append bs [] ∙ drop_nil (length bs))
  where
    drop_nil : (n : ℕ) → bs ++ drop n [] ≡ bs ++ []
    drop_nil zero = refl
    drop_nil (suc n) = refl
overwrite-append (b ∷ bs) (x ∷ f) = ap (λ s. b ∷ s) (overwrite-append bs f)

pub drop-nil : (n : ℕ) → drop {A = ℕ} n [] ≡ []
unfolding drop
drop-nil zero = refl
drop-nil (suc n) = refl

-- From where it was written on, the file has what was written.
pub drop-write_at :
    (p : ℕ) (bs f : Bytes)
    → 0 < length bs
    → drop p (write_at p bs f) ≡ bs ++ drop (length bs) (drop p f)
unfolding drop write_at
drop-write_at p [] f h = absurd (omega arith)
drop-write_at zero (b ∷ bs) f h = overwrite-append (b ∷ bs) f
drop-write_at (suc p) (b ∷ bs) [] h =
    drop-write_at p (b ∷ bs) [] h ∙ ap (λ s. (b ∷ bs) ++ drop (length (b ∷ bs)) s) (drop-nil p)
drop-write_at (suc p) (b ∷ bs) (x ∷ f) h = drop-write_at p (b ∷ bs) f h

drop-overwrite : (q : ℕ) (bs f : Bytes) → length bs ≤ q → drop q (overwrite bs f) ≡ drop q f
unfolding drop overwrite
drop-overwrite q [] f h = refl
drop-overwrite zero (b ∷ bs) f h = absurd (omega arith)
drop-overwrite (suc q) (b ∷ bs) [] h = drop-overwrite q bs [] (omega arith) ∙ drop-nil q
drop-overwrite (suc q) (b ∷ bs) (x ∷ f) h = drop-overwrite q bs f (omega arith)

-- Behind it, the file is as before.
pub drop-write_at_behind :
    (q p : ℕ) (bs f : Bytes) → p + length bs ≤ q → drop q (write_at p bs f) ≡ drop q f
unfolding drop write_at
drop-write_at_behind q p [] f h = refl
drop-write_at_behind q zero (b ∷ bs) f h = drop-overwrite q (b ∷ bs) f (omega arith)
drop-write_at_behind zero (suc p) (b ∷ bs) f h = absurd (omega arith)
drop-write_at_behind (suc q) (suc p) (b ∷ bs) [] h =
    drop-write_at_behind q p (b ∷ bs) [] (omega arith) ∙ drop-nil q
drop-write_at_behind (suc q) (suc p) (b ∷ bs) (x ∷ f) h =
    drop-write_at_behind q p (b ∷ bs) f (omega arith)

-- ===== src/Prelude/Lists.antt =====
-- Lists: native length, membership with its witness, and a predicate on every element.
use Prim.Native.Nat.{ℕ, suc, ◌+◌}
use native.Mathlib.Omega.{arith}
use mathlib.Core.Path.{◌≡◌, refl, sym, ap, subst}
use mathlib.Core.Logic.{◌⊎◌, inl, inr}
use mathlib.Core.List.{List, [], ◌∷◌, ◌++◌, map, reverse_aux}

pub List-cases :
    {A : Type 0} (xs : List A) → (xs ≡ []) ⊎ ((x : A) × (rest : List A) × (xs ≡ x ∷ rest))
List-cases [] = inl refl
List-cases (x ∷ rest) = inr (x, rest, refl)

module _ {ℓ} {A : Type ℓ} where
  abbrev pub length : List A → ℕ
  length [] = 0
  length (x ∷ xs) = suc (length xs)

  pub length-append : (xs ys : List A) → length (xs ++ ys) ≡ length xs + length ys
  length-append [] ys = omega arith
  length-append (x ∷ xs) ys = omega (arith, length-append xs ys)

  abbrev pub All {κ} : (A → Type κ) → List A → Type κ
  All P [] = Unit
  All P (x ∷ xs) = P x × All P xs

  pub All-append {κ} : (P : A → Type κ) (xs ys : List A) → All P xs → All P ys → All P (xs ++ ys)
  All-append P [] ys h k = k
  All-append P (x ∷ xs) ys h k = (h.0, All-append P xs ys h.1 k)

  pub All-imp {κ μ} :
      (P : A → Type κ) (Q : A → Type μ) (xs : List A) → ((x : A) → P x → Q x) → All P xs → All Q xs
  All-imp P Q [] f h = tt
  All-imp P Q (x ∷ xs) f h = (f x h.0, All-imp P Q xs f h.1)

  pub All-and {κ μ} :
      (P : A → Type κ) (Q : A → Type μ) (xs : List A)
      → All P xs
      → All Q xs
      → All (λ x. P x × Q x) xs
  All-and P Q [] h k = tt
  All-and P Q (x ∷ xs) h k = ((h.0, k.0), All-and P Q xs h.1 k.1)

-- The element stands in the list: a position, by recursion.
abbrev pub Has : {A : Type 0} → A → List A → Type 0
Has a [] = ⊥
Has a (x ∷ xs) = (a ≡ x) ⊎ Has a xs

module _ {A : Type 0} where
  pub Has-append_left : (a : A) (xs ys : List A) → Has a xs → Has a (xs ++ ys)
  Has-append_left a [] ys h = absurd h
  Has-append_left a (x ∷ xs) ys (inl e) = inl e
  Has-append_left a (x ∷ xs) ys (inr h) = inr (Has-append_left a xs ys h)

  pub Has-append_right : (a : A) (xs ys : List A) → Has a ys → Has a (xs ++ ys)
  Has-append_right a [] ys h = h
  Has-append_right a (x ∷ xs) ys h = inr (Has-append_right a xs ys h)

  pub Has-append : (a : A) (xs ys : List A) → Has a (xs ++ ys) → Has a xs ⊎ Has a ys
  Has-append a [] ys h = inr h
  Has-append a (x ∷ xs) ys (inl e) = inl (inl e)
  Has-append a (x ∷ xs) ys (inr h) = elim (Has-append a xs ys h) [
    | inl l ↦ inl (inr l)
    | inr r ↦ inr r
  ]

  pub Has-append_skip : (a b : A) (xs ys : List A) → Has a (xs ++ ys) → Has a (xs ++ b ∷ ys)
  Has-append_skip a b xs ys h = elim (Has-append a xs ys h) [
    | inl l ↦ Has-append_left a xs (b ∷ ys) l
    | inr r ↦ Has-append_right a xs (b ∷ ys) (inr r)
  ]

  pub All-Has {κ} : (P : A → Type κ) (xs : List A) → ((a : A) → Has a xs → P a) → All P xs
  All-Has P [] f = tt
  All-Has P (x ∷ xs) f = (f x (inl refl), All-Has P xs (λ a h. f a (inr h)))

  -- `reverse_aux xs acc` pushes the elements of `xs` on `acc` one after the other.
  pub Has-reverse_aux :
      (a : A) (xs acc : List A) → Has a xs ⊎ Has a acc → Has a (reverse_aux xs acc)
  Has-reverse_aux a [] acc (inl h) = absurd h
  Has-reverse_aux a [] acc (inr h) = h
  Has-reverse_aux a (x ∷ xs) acc (inl (inl e)) = Has-reverse_aux a xs (x ∷ acc) (inr (inl e))
  Has-reverse_aux a (x ∷ xs) acc (inl (inr h)) = Has-reverse_aux a xs (x ∷ acc) (inl h)
  Has-reverse_aux a (x ∷ xs) acc (inr h) = Has-reverse_aux a xs (x ∷ acc) (inr (inr h))

  pub Has-reverse_aux_inv :
      (a : A) (xs acc : List A) → Has a (reverse_aux xs acc) → Has a xs ⊎ Has a acc
  Has-reverse_aux_inv a [] acc w = inr w
  Has-reverse_aux_inv a (x ∷ xs) acc w = elim (Has-reverse_aux_inv a xs (x ∷ acc) w) [
    | inl v ↦ inl (inr v)
    | inr (inl e) ↦ inl (inl e)
    | inr (inr v) ↦ inr v
  ]

  pub All-reverse_aux {κ} :
      (P : A → Type κ) (xs acc : List A) → All P xs → All P acc → All P (reverse_aux xs acc)
  All-reverse_aux P [] acc h k = k
  All-reverse_aux P (x ∷ xs) acc h k = All-reverse_aux P xs (x ∷ acc) h.1 (h.0, k)

  pub All_at {κ} : (P : A → Type κ) (xs : List A) (a : A) → All P xs → Has a xs → P a
  All_at P [] a h m = absurd m
  All_at P (x ∷ xs) a h (inl e) = subst P (sym e) h.0
  All_at P (x ∷ xs) a h (inr m) = All_at P xs a h.1 m

pub Has-map : {A B : Type 0} (f : A → B) (a : A) (xs : List A) → Has a xs → Has (f a) (map f xs)
Has-map f a [] h = absurd h
Has-map f a (x ∷ xs) (inl e) = inl (ap f e)
Has-map f a (x ∷ xs) (inr h) = inr (Has-map f a xs h)

pub Has-map_inv :
    {A B : Type 0} (f : A → B) (b : B) (xs : List A)
    → Has b (map f xs)
    → (a : A) × Has a xs × (b ≡ f a)
Has-map_inv f b [] h = absurd h
Has-map_inv f b (x ∷ xs) (inl e) = (x, inl refl, e)
Has-map_inv f b (x ∷ xs) (inr h) = let (a, m, e) = Has-map_inv f b xs h in (a, inr m, e)

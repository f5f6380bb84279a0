-- ===== src/Prelude/Results.antt =====
-- What a Python function gives back that may raise. Messages are left out: an error is its class.
use mathlib.Core.Path.{◌≡◌, refl}

pub data Error : Type 0 where
  value_error key_error index_error type_error runtime_error assertion_error miss_error os_error
        attribute_error file_exists_error unbound_local_error struct_error unicode_error :
      Error

pub data Result {ℓ} (A : Type ℓ) : Type ℓ where
  err : Error → Result A
  ok : A → Result A

module _ {ℓ κ} {A : Type ℓ} {B : Type κ} where
  infixl 5 ◌>>=◌ ◌>>◌
  -- One call after the other; a raise ends it.
  abbrev pub ◌>>=◌ : Result A → (A → Result B) → Result B
  err raised >>= next = err raised
  ok value >>= next = next value

  -- The same, where the second call does not ask what the first gave.
  abbrev pub ◌>>◌ : Result A → Result B → Result B
  first >> second = first >>= λ ignored. second

  -- Where two calls in a row succeed, each did.
  pub >>=-eq-ok :
      (first : Result A) (next : A → Result B) {last : B}
      → (first >>= next) ≡ ok last
      → (value : A) × (first ≡ ok value) × (next value ≡ ok last)
  >>=-eq-ok (err raised) next succeeds = cc
  >>=-eq-ok (ok value) next succeeds = (value, refl, succeeds)

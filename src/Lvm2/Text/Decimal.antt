-- ===== src/Lvm2/Text/Decimal.antt =====
-- osbuild/util/lvm2.py: decimal numbers as they are written and read.
use Prim.Native.Nat.{◌/◌, ◌%◌}
use osbuild.Prelude.{
  ℕ, zero, suc, ◌+◌, ◌*◌, ◌<◌, Bool, true, false, some, [], ◌∷◌, All, All-imp, ltb, same_number,
  ◌≡◌, refl, ap, ◌∙◌, arith, Bool-cases, inl, inr,
}
use osbuild.Prelude.Int.{ℤ, pos, negsuc}
use osbuild.Lvm2.Text.{
  Text, is_digit, digits, str_ℤ, digits_value, as_pos, as_neg, int_of, is_space,
}
use osbuild.Lvm2.Metadata.{has_point, same_text, dict_start}
use osbuild.Lvm2.Text.Parts.{is_special, IsPlain, IsWord}

abbrev pub IsDigit : ℕ → Type 0
IsDigit c = is_digit c ≡ true

-- At least one digit.
abbrev pub IsNumeral : Text → Type 0
IsNumeral [] = ⊥
IsNumeral (c ∷ rest) = IsDigit c × All IsDigit rest

add-IsDigit : (k : ℕ) → k < 10 → IsDigit (b'0' + k)
unfolding is_digit
add-IsDigit k h = ground arith

digits-IsNumeral : (f n : ℕ) (tail : Text) → n < f → All IsDigit tail → IsNumeral (digits f n tail)
unfolding digits
digits-IsNumeral zero n tail enough h = absurd (omega arith)
digits-IsNumeral (suc f) n tail enough h = elim (Bool-cases (ltb n 10)) [
  | inl small ↦ rw small (add-IsDigit n (ground arith), h)
  | inr large ↦ rw large (
      digits-IsNumeral f (n / 10) ((b'0' + n % 10) ∷ tail) (ground arith)
        (add-IsDigit (n % 10) (omega arith), h))
]

digits_value-digit :
    (needed : Bool) (n k : ℕ) (tail : Text)
    → k < 10
    → digits_value needed n ((b'0' + k) ∷ tail) ≡ digits_value false (n * 10 + k) tail
unfolding digits_value
digits_value-digit needed n k tail h =
    rw (add-IsDigit k h) (ap (λ x. digits_value false (n * 10 + x) tail) (omega arith))

digits_value-digits :
    (f n : ℕ) (tail : Text) (needed : Bool)
    → n < f
    → digits_value needed 0 (digits f n tail) ≡ digits_value false n tail
unfolding digits
digits_value-digits zero n tail needed enough = absurd (omega arith)
digits_value-digits (suc f) n tail needed enough = elim (Bool-cases (ltb n 10)) [
  | inl small ↦ rw small (
      digits_value-digit needed 0 n tail (ground arith)
      ∙ ap (λ x. digits_value false x tail) (omega arith))
  | inr large ↦ rw large (
      digits_value-digits f (n / 10) ((b'0' + n % 10) ∷ tail) needed (ground arith)
      ∙ digits_value-digit false (n / 10) (n % 10) tail (omega arith)
      ∙ ap (λ x. digits_value false x tail) (omega arith))
]

int_of-numeral : (s : Text) → IsNumeral s → int_of s ≡ as_pos (digits_value true 0 s)
unfolding int_of is_digit
int_of-numeral [] h = absurd h
int_of-numeral (c ∷ rest) h = ground arith

-- `int` reads what `str` writes.
pub int_of-str_ℤ : (n : ℤ) → int_of (str_ℤ n) ≡ some n
unfolding str_ℤ int_of digits_value
int_of-str_ℤ (pos n) =
    int_of-numeral (digits (suc n) n []) (digits-IsNumeral (suc n) n [] (omega arith) tt)
    ∙ ap as_pos (digits_value-digits (suc n) n [] true (omega arith))
int_of-str_ℤ (negsuc n) =
    ap as_neg (digits_value-digits (suc (suc n)) (suc n) [] true (omega arith))

IsDigit-IsPlain : (c : ℕ) → IsDigit c → IsPlain c
unfolding is_digit is_special is_space
IsDigit-IsPlain c h = ground arith

numeral-IsWord : (s : Text) → IsNumeral s → IsWord s
numeral-IsWord [] h = h
numeral-IsWord (c ∷ rest) h =
    (IsDigit-IsPlain c h.0, All-imp IsDigit IsPlain rest IsDigit-IsPlain h.1)

-- What `str` writes is a word.
pub str_ℤ-IsWord : (n : ℤ) → IsWord (str_ℤ n)
unfolding str_ℤ is_special is_space
str_ℤ-IsWord (pos n) = numeral-IsWord _ (digits-IsNumeral (suc n) n [] (omega arith) tt)
str_ℤ-IsWord (negsuc n) = (
  refl,
  word_plain _ (numeral-IsWord _ (digits-IsNumeral (suc (suc n)) (suc n) [] (omega arith) tt)),
)
  where
    word_plain : (s : Text) → IsWord s → All IsPlain s
    word_plain [] h = tt
    word_plain (c ∷ rest) h = h

not_point : (c : ℕ) → IsDigit c → same_number c b'.' ≡ false
unfolding is_digit
not_point c h = ground arith

not_brace : (c : ℕ) → IsDigit c → same_number c b'{' ≡ false
unfolding is_digit
not_brace c h = ground arith

has_point-digits : (s : Text) → All IsDigit s → has_point s ≡ false
unfolding is_digit
has_point-digits [] h = refl
has_point-digits (c ∷ rest) h = rw (not_point c h.0) (has_point-digits rest h.1)

numeral_point : (s : Text) → IsNumeral s → has_point s ≡ false
numeral_point [] h = refl
numeral_point (c ∷ rest) h = has_point-digits (c ∷ rest) h

numeral_brace : (s : Text) → IsNumeral s → same_text s dict_start ≡ false
numeral_brace [] h = refl
numeral_brace (c ∷ rest) h = rw (not_brace c h.0) refl

-- It has no point, and is no opening brace.
pub str_ℤ-has_point : (n : ℤ) → has_point (str_ℤ n) ≡ false
unfolding str_ℤ
str_ℤ-has_point (pos n) = numeral_point _ (digits-IsNumeral (suc n) n [] (omega arith) tt)
str_ℤ-has_point (negsuc n) =
    numeral_point _ (digits-IsNumeral (suc (suc n)) (suc n) [] (omega arith) tt)

pub str_ℤ-no_brace : (n : ℤ) → same_text (str_ℤ n) dict_start ≡ false
unfolding str_ℤ
str_ℤ-no_brace (pos n) = numeral_brace _ (digits-IsNumeral (suc n) n [] (omega arith) tt)
str_ℤ-no_brace (negsuc n) = refl

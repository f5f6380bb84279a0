-- ===== src/Meta/Runners/Names.antt =====
-- osbuild/meta.py: how a runner name is taken apart.
use Prim.Native.Char.{Char}
use Prim.Native.String.{[], ◌∷◌}
use osbuild.Prelude.{
  true, false, List, [], ◌∷◌, ◌++◌, reverse, reverse_aux, ◌≡◌, refl, ap, ◌∙◌, All,
}
use osbuild.Meta.Runners.{chars, text, is_digit, decimal, scan, parse_name}

chars-text : (cs : List Char) → chars (text cs) ≡ cs
unfolding chars text
chars-text [] = refl
chars-text (c ∷ cs) = ap (λ l. c ∷ l) (chars-text cs)

abbrev AllDigits : List Char → Type 0
AllDigits = All (λ c. is_digit c ≡ true)

-- From the end of a name, the loop takes the digits up to the first character that is none.
scan-digits :
    (rev : List Char) (c : Char) (before v : List Char)
    → AllDigits rev
    → is_digit c ≡ false
    → scan (rev ++ c ∷ before) v ≡ (c ∷ before, reverse_aux rev v)
unfolding scan
scan-digits [] c [] v digits stop = refl
scan-digits [] c (b ∷ before) v digits stop = rw stop refl
scan-digits (x ∷ []) c before v digits stop = rw digits.0 (scan-digits [] c before (x ∷ v) tt stop)
scan-digits (x ∷ y ∷ rev) c before v digits stop =
    rw digits.0 (scan-digits (y ∷ rev) c before (x ∷ v) digits.1 stop)

reverse_aux-append :
    (xs ys acc : List Char) → reverse_aux (xs ++ ys) acc ≡ reverse_aux ys (reverse_aux xs acc)
reverse_aux-append [] ys acc = refl
reverse_aux-append (x ∷ xs) ys acc = reverse_aux-append xs ys (x ∷ acc)

reverse_aux-append_right :
    (xs ys acc : List Char) → reverse_aux xs (ys ++ acc) ≡ reverse_aux xs ys ++ acc
reverse_aux-append_right [] ys acc = refl
reverse_aux-append_right (x ∷ xs) ys acc = reverse_aux-append_right xs (x ∷ ys) acc

reverse_aux-back :
    (xs acc out : List Char) → reverse_aux (reverse_aux xs acc) out ≡ reverse_aux acc (xs ++ out)
reverse_aux-back [] acc out = refl
reverse_aux-back (x ∷ xs) acc out = reverse_aux-back xs (x ∷ acc) out

append-nil : (xs : List Char) → xs ++ [] ≡ xs
append-nil [] = refl
append-nil (x ∷ xs) = ap (λ l. x ∷ l) (append-nil xs)

AllDigits-reverse_aux :
    (v acc : List Char) → AllDigits v → AllDigits acc → AllDigits (reverse_aux v acc)
AllDigits-reverse_aux [] acc a b = b
AllDigits-reverse_aux (c ∷ v) acc a b = AllDigits-reverse_aux v (c ∷ acc) a.1 (a.0, b)

scan-reverse :
    (base : List Char) (c : Char) (v : List Char)
    → is_digit c ≡ false
    → AllDigits v
    → scan (reverse (base ++ c ∷ v)) [] ≡ (c ∷ reverse base, v)
scan-reverse base c v stop digits =
    ap (λ l. scan l [])
      (reverse_aux-append base (c ∷ v) [] ∙ reverse_aux-append_right v [] (c ∷ reverse base))
    ∙ scan-digits (reverse v) c (reverse base) [] (AllDigits-reverse_aux v [] digits tt) stop
    ∙ ap (λ l. (c ∷ reverse base, l)) (reverse_aux-back v [] [] ∙ append-nil v)

-- A name that is a text which ends in a character that is no digit, and then digits, is taken apart
-- there: the distribution is the text, and the version the number that the digits write, 0 where there
-- are none.
pub parse_name-split :
    (base : List Char) (c : Char) (v : List Char)
    → is_digit c ≡ false
    → All (λ (d : Char). is_digit d ≡ true) v
    → parse_name (text (base ++ c ∷ v)) ≡ (text (base ++ c ∷ []), decimal 0 v)
unfolding parse_name
parse_name-split base c v stop digits =
    rw (chars-text (base ++ c ∷ v), scan-reverse base c v stop digits)
      (ap (λ l. (text l, decimal 0 v)) (reverse_aux-back base [] (c ∷ [])))

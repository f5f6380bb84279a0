-- ===== src/Lvm2/Metadata/Strings.antt =====
-- osbuild/util/lvm2.py: a string is put together from its words by `parse_str`.
use mathlib.Core.List.{append_assoc, append-nil}
use osbuild.Prelude.{
  ℕ, false, List, [], ◌∷◌, ◌++◌, All, All-imp, same_number, ◌≡◌, refl, ap, ◌∙◌, some, ok, arith,
}
use osbuild.Lvm2.Text.{Text, is_space}
use osbuild.Lvm2.Text.Lexing.{IsLetter}
use osbuild.Lvm2.Text.Parts.{is_special, IsPlain, IsWord, IsPlain-IsLetter}
use osbuild.Lvm2.Encode.Tokens.{joined}
use osbuild.Lvm2.Metadata.{
  text, same_text, strip, strip_start, strip_end, kept_end, parse_str, string_mark, array_start,
  array_end,
}

spaced : List Text → Text
spaced [] = []
spaced (w ∷ ws) = b' ' ∷ (w ++ spaced ws)

not_mark :
    (c : ℕ)
    → IsPlain c
    → (same_number c b'"' ≡ false) × (same_number c b'[' ≡ false) × (same_number c b']' ≡ false)
unfolding is_special
not_mark c h = (ground arith, ground arith, ground arith)

-- A word is no mark of a string or an array.
pub word_not_mark :
    (w : Text)
    → IsWord w
    → (same_text w string_mark ≡ false)
      × (same_text w array_start ≡ false)
      × (same_text w array_end ≡ false)
      × (same_text w [] ≡ false)
word_not_mark [] h = absurd h
word_not_mark (c ∷ w) h =
    let (mark, opening, closing) = not_mark c h.0 in
    (rw mark refl, rw opening refl, rw closing refl, refl)

parse_str-spaced :
    (result : Text) (words rest : List Text)
    → All IsWord words
    → parse_str result (words ++ string_mark ∷ rest)
      ≡ some (ok (text (strip (result ++ spaced words)), rest))
unfolding parse_str spaced
parse_str-spaced result [] rest h = rw (append-nil result) refl
parse_str-spaced result (w ∷ ws) rest h = rw (word_not_mark w h.0).0 (
    parse_str-spaced (result ++ b' ' ∷ w) ws rest h.1
    ∙ ap (λ s. some (ok (text (strip s), rest))) (append_assoc result (b' ' ∷ w) (spaced ws)))

strip_end-letters : (s rest : Text) → All IsLetter s → strip_end (s ++ rest) ≡ s ++ strip_end rest
unfolding strip_end
strip_end-letters [] rest h = refl
strip_end-letters (c ∷ s) rest h =
    ap (kept_end c) (strip_end-letters s rest h.1) ∙ letter_kept c (s ++ strip_end rest) h.0
  where
    letter_kept : (c : ℕ) (t : Text) → IsLetter c → kept_end c t ≡ c ∷ t
    letter_kept c [] letter = rw letter refl
    letter_kept c (d ∷ t) letter = refl

letters : (w : Text) → IsWord w → All IsLetter w
letters [] h = tt
letters (c ∷ w) h = All-imp IsPlain IsLetter (c ∷ w) IsPlain-IsLetter h

strip_end-spaced : (words : List Text) → All IsWord words → strip_end (spaced words) ≡ spaced words
unfolding strip_end spaced
strip_end-spaced [] h = refl
strip_end-spaced ([] ∷ ws) h = absurd h.0
strip_end-spaced ((c ∷ w) ∷ ws) h = ap (kept_end b' ') (
    strip_end-letters (c ∷ w) (spaced ws) (letters (c ∷ w) h.0)
    ∙ ap (λ s. (c ∷ w) ++ s) (strip_end-spaced ws h.1))

joined-spaced : (w : Text) (ws : List Text) → w ++ spaced ws ≡ joined (w ∷ ws)
unfolding spaced
joined-spaced w [] = append-nil w
joined-spaced w (v ∷ ws) = ap (λ s. w ++ b' ' ∷ s) (joined-spaced v ws)

strip-spaced : (words : List Text) → All IsWord words → strip (spaced words) ≡ joined words
unfolding strip strip_start spaced is_space
strip-spaced [] h = unfold strip_end in refl
strip-spaced ([] ∷ ws) h = absurd h.0
strip-spaced ((c ∷ w) ∷ ws) h = rw (IsPlain-IsLetter c h.0.0) (
    strip_end-letters (c ∷ w) (spaced ws) (letters (c ∷ w) h.0)
    ∙ ap (λ s. (c ∷ w) ++ s) (strip_end-spaced ws h.1)
    ∙ joined-spaced (c ∷ w) ws)

pub parse_str-joined :
    (words rest : List Text)
    → All IsWord words
    → parse_str [] (words ++ string_mark ∷ rest) ≡ some (ok (text (joined words), rest))
parse_str-joined words rest h =
    parse_str-spaced [] words rest h ∙ ap (λ s. some (ok (text s, rest))) (strip-spaced words h)

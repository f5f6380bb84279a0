-- ===== src/Lvm2/Text/Parts.antt =====
-- osbuild/util/lvm2.py: the tokens of words and of what stands between them.
use mathlib.Core.List.{append_assoc, append-nil}
use osbuild.Prelude.{
  ℕ, Bool, false, ◌||◌, List, [], ◌∷◌, ◌++◌, All, All-append, All-imp, same_number, ◌≡◌, refl, sym,
  ap, ◌∙◌, arith,
}
use osbuild.Lvm2.Text.{Text, is_space, replace, collapse, drop_nul, substituted, flushed, split}
use osbuild.Lvm2.Text.Lexing.{
  IsNotHash, IsLetter, spread, spread-append, drop_comments-none, split-collapse, collapse-snoc,
  drop_nul-snoc, split-letters,
}
use osbuild.Lvm2.Text.Spelling.{Spells, Lines, Spells-middle, Lines-middle, Spells-last}

-- A character that no substitution touches.
unfoldable pub is_special : ℕ → Bool
is_special c =
    is_space c
    || same_number c b'#'
    || same_number c b'['
    || same_number c b']'
    || same_number c b'"'
    || same_number c b'='
    || same_number c b','

abbrev pub IsPlain : ℕ → Type 0
IsPlain c = is_special c ≡ false

-- Not empty, and of such characters.
abbrev pub IsWord : Text → Type 0
IsWord [] = ⊥
IsWord (c ∷ rest) = IsPlain c × All IsPlain rest

pub IsPlain-IsLetter : (c : ℕ) → IsPlain c → IsLetter c
unfolding is_special
IsPlain-IsLetter c h = ground arith

IsPlain-IsNotHash : (c : ℕ) → IsPlain c → IsNotHash c
unfolding is_special
IsPlain-IsNotHash c h = ground arith

spread_one : (c : ℕ) → IsPlain c → spread (c ∷ []) ≡ c ∷ []
unfolding spread replace is_special
spread_one c h =
    let opening : same_number c b'[' ≡ false = ground arith in
    let closing : same_number c b']' ≡ false = ground arith in
    let mark : same_number c b'"' ≡ false = ground arith in
    let equals : same_number c b'=' ≡ false = ground arith in
    let comma : same_number c b',' ≡ false = ground arith in
    rw (opening, closing, mark, equals, comma) refl

pub spread-plain : (s : Text) → All IsPlain s → spread s ≡ s
spread-plain [] h = unfold spread replace in refl
spread-plain (c ∷ s) h =
    spread-append (c ∷ []) s ∙ rw (spread_one c h.0) (ap (λ x. c ∷ x) (spread-plain s h.1))

pub Spells-word : (w : Text) → IsWord w → Spells w (w ∷ [])
unfolding split
Spells-word [] h = absurd h
Spells-word (d ∷ w) h = (
  All-imp IsPlain IsNotHash (d ∷ w) IsPlain-IsNotHash h,
  λ c rest space.
      ap (λ s. split [] (s ++ c ∷ rest)) (spread-plain (d ∷ w) h)
      ∙ split-letters [] (d ∷ w) rest c (All-imp IsPlain IsLetter (d ∷ w) IsPlain-IsLetter h) space,
)

module _ (x : Text) (ts : List Text) (first : Spells x ts) where
  pub Spells-blank : (y : Text) (us : List Text) → Spells y us → Spells (x ++ b' ' ∷ y) (ts ++ us)
  unfolding is_space spread replace
  Spells-blank y us =
      Spells-middle x (b' ' ∷ []) [] b' ' ts first refl refl (refl, tt) y us [] (λ rest. refl)

  pub Lines-blank : (y : Text) (us : List Text) → Lines y us → Lines (x ++ b' ' ∷ y) (ts ++ us)
  unfolding is_space spread replace
  Lines-blank y us =
      Lines-middle x (b' ' ∷ []) [] b' ' ts first refl refl (refl, tt) y us [] (λ rest. refl)

  pub Lines-line : (y : Text) (us : List Text) → Lines y us → Lines (x ++ b'\n' ∷ y) (ts ++ us)
  unfolding is_space spread replace
  Lines-line y us =
      Lines-middle x (b'\n' ∷ []) [] b'\n' ts first refl refl (refl, tt) y us [] (λ rest. refl)

  pub Spells-comma :
      (y : Text) (us : List Text) → Spells y us → Spells (x ++ b',' ∷ b' ' ∷ y) (ts ++ us)
  unfolding is_space spread replace
  Spells-comma y us =
      Spells-middle x (b',' ∷ b' ' ∷ []) [] b' ' ts first refl refl (refl, (refl, tt)) y us []
        (λ rest. refl)

  pub Spells-mark :
      (y : Text) (us : List Text) → Spells y us → Spells (x ++ b'"' ∷ y) (ts ++ (b'"' ∷ []) ∷ us)
  unfolding is_space spread replace split
  Spells-mark y us =
      Spells-middle x (b'"' ∷ []) (b'"' ∷ b' ' ∷ []) b' ' ts first refl refl (refl, tt) y us
        ((b'"' ∷ []) ∷ []) (λ rest. refl)

  pub Spells-close : Spells (x ++ b']' ∷ []) (ts ++ (b']' ∷ []) ∷ [])
  unfolding is_space spread replace split
  Spells-close =
      Spells-last x (b']' ∷ []) (b']' ∷ []) b' ' ts first refl refl (refl, tt) (b']' ∷ [])
        (λ c rest space. rw space refl)

pub Lines-equals : (y : Text) (us : List Text) → Lines y us → Lines (b'=' ∷ y) us
unfolding spread replace
Lines-equals y us (clean, lexes) = ((refl, clean), lexes)

pub Spells-open : (y : Text) (us : List Text) → Spells y us → Spells (b'[' ∷ y) ((b'[' ∷ []) ∷ us)
unfolding spread replace split is_space
Spells-open y us (clean, lexes) =
    ((refl, clean), λ c rest space. ap (λ s. (b'[' ∷ []) ∷ s) (lexes c rest space))

-- The whole text, with the character that `encode_data` puts behind it.
pub split-Lines :
    (x : Text) (ts : List Text) → Lines x ts → split [] (substituted (x ++ 0 ∷ [])) ≡ ts
unfolding substituted spread replace split is_space
split-Lines x ts (clean, lexes) =
    ap (λ s. split [] (drop_nul (collapse false (spread s))))
      (drop_comments-none (x ++ 0 ∷ []) (All-append IsNotHash x (0 ∷ []) clean (refl, tt)))
    ∙ ap (λ s. split [] (drop_nul (collapse false s))) (spread-append x (0 ∷ []))
    ∙ ap (λ s. split [] (drop_nul s)) (collapse-snoc false (spread x))
    ∙ ap (split []) (drop_nul-snoc (collapse false (spread x)))
    ∙ (split-collapse [] (spread x)).0
    ∙ ap (split []) (sym (append-nil (spread x)))
    ∙ lexes []
    ∙ append-nil ts

split-end : (word s : Text) → All IsLetter s → split word s ≡ flushed (word ++ s)
unfolding split
split-end word [] h = ap flushed (sym (append-nil word))
split-end word (c ∷ s) h =
    rw h.0 (split-end (word ++ c ∷ []) s h.1 ∙ ap flushed (append_assoc word (c ∷ []) s))

-- The words of a word, alone or in front of a space.
pub split-word : (w : Text) → IsWord w → split [] w ≡ w ∷ []
split-word [] h = absurd h
split-word (c ∷ w) h = split-end [] (c ∷ w) (All-imp IsPlain IsLetter (c ∷ w) IsPlain-IsLetter h)

pub split-word_blank : (w rest : Text) → IsWord w → split [] (w ++ b' ' ∷ rest) ≡ w ∷ split [] rest
unfolding is_space split
split-word_blank [] rest h = absurd h
split-word_blank (c ∷ w) rest h =
    split-letters [] (c ∷ w) rest b' ' (All-imp IsPlain IsLetter (c ∷ w) IsPlain-IsLetter h) refl

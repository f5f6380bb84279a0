-- ===== src/Lvm2/Text/Spelling.antt =====
-- osbuild/util/lvm2.py: the tokens that `decode_data` makes of a text, put together from its parts.
use mathlib.Core.List.{append_assoc, append-nil}
use osbuild.Prelude.{ℕ, true, List, [], ◌∷◌, ◌++◌, All, All-append, ◌≡◌, refl, sym, ap, ◌∙◌}
use osbuild.Lvm2.Text.{Text, is_space, replace, split}
use osbuild.Lvm2.Text.Lexing.{IsNotHash, spread, spread-append, split-space}

-- A text spells tokens, if a space comes behind it.
abbrev pub Spells : Text → List Text → Type 0
Spells x ts =
    All IsNotHash x
    × ((c : ℕ) (rest : Text)
        → is_space c ≡ true
        → split [] (spread x ++ c ∷ rest) ≡ ts ++ split [] (c ∷ rest))

-- A text spells tokens, whatever comes behind it.
abbrev pub Lines : Text → List Text → Type 0
Lines x ts = All IsNotHash x × ((rest : Text) → split [] (spread x ++ rest) ≡ ts ++ split [] rest)

pub Spells-nil : Spells [] []
unfolding spread replace
Spells-nil = (tt, λ c rest space. refl)

pub Lines-nil : Lines [] []
unfolding spread replace
Lines-nil = (tt, λ rest. refl)

pub Lines-Spells : (x : Text) (ts : List Text) → Lines x ts → Spells x ts
Lines-Spells x ts (clean, lexes) = (clean, λ c rest space. lexes (c ∷ rest))

-- A part, what the substitutions start with a space, and a last part.
module _ (x m n : Text) (g : ℕ) (ts : List Text) (first : Spells x ts) (space : is_space g ≡ true)
    (spreads : spread m ≡ g ∷ n) (clean_middle : All IsNotHash m) where
  split-middle :
      (y rest : Text)
      → split [] (spread (x ++ (m ++ y)) ++ rest) ≡ ts ++ split [] (n ++ (spread y ++ rest))
  split-middle y rest =
      ap (λ s. split [] (s ++ rest))
        (spread-append x (m ++ y)
          ∙ ap (λ s. spread x ++ s) (spread-append m y ∙ ap (λ s. s ++ spread y) spreads))
      ∙ ap (split []) (append_assoc (spread x) (g ∷ (n ++ spread y)) rest)
      ∙ ap (λ s. split [] (spread x ++ g ∷ s)) (append_assoc n (spread y) rest)
      ∙ first.1 g (n ++ (spread y ++ rest)) space
      ∙ ap (λ s. ts ++ s) (split-space g (n ++ (spread y ++ rest)) space)

  clean-middle : (y : Text) → All IsNotHash y → All IsNotHash (x ++ (m ++ y))
  clean-middle y clean =
      All-append IsNotHash x (m ++ y) first.0 (All-append IsNotHash m y clean_middle clean)

  -- The tokens `vs` are those of the middle.
  module _ (y : Text) (us vs : List Text)
      (lexes_middle : (rest : Text) → split [] (n ++ rest) ≡ vs ++ split [] rest) where
    pub Spells-middle : Spells y us → Spells (x ++ (m ++ y)) (ts ++ (vs ++ us))
    Spells-middle (clean, lexes) = (
      clean-middle y clean,
      λ c rest after.
          split-middle y (c ∷ rest)
          ∙ ap (λ s. ts ++ s)
              (lexes_middle (spread y ++ c ∷ rest) ∙ ap (λ s. vs ++ s) (lexes c rest after))
          ∙ rw
              (
                append_assoc ts (vs ++ us) (split [] (c ∷ rest)),
                append_assoc vs us (split [] (c ∷ rest)),
              )
              refl,
    )

    pub Lines-middle : Lines y us → Lines (x ++ (m ++ y)) (ts ++ (vs ++ us))
    Lines-middle (clean, lexes) = (
      clean-middle y clean,
      λ rest.
          split-middle y rest
          ∙ ap (λ s. ts ++ s) (lexes_middle (spread y ++ rest) ∙ ap (λ s. vs ++ s) (lexes rest))
          ∙ rw (append_assoc ts (vs ++ us) (split [] rest), append_assoc vs us (split [] rest))
              refl,
    )

  -- A last middle that is one token.
  pub Spells-last :
      (v : Text)
      → ((c : ℕ) (rest : Text)
          → is_space c ≡ true
          → split [] (n ++ c ∷ rest) ≡ v ∷ split [] (c ∷ rest))
      → Spells (x ++ m) (ts ++ v ∷ [])
  unfolding spread replace
  Spells-last v lexes = (
    All-append IsNotHash x m first.0 clean_middle,
    λ c rest after.
        ap (λ s. split [] (spread (x ++ s) ++ c ∷ rest)) (sym (append-nil m))
        ∙ split-middle [] (c ∷ rest)
        ∙ ap (λ s. ts ++ s) (lexes c rest after)
        ∙ sym (append_assoc ts (v ∷ []) _),
  )

pub Lines-append :
    (x y : Text) (ts us : List Text) → Lines x ts → Lines y us → Lines (x ++ y) (ts ++ us)
Lines-append x y ts us (clean, lexes) (clean', lexes') = (
  All-append IsNotHash x y clean clean',
  λ rest.
      ap (λ s. split [] (s ++ rest)) (spread-append x y)
      ∙ ap (split []) (append_assoc (spread x) (spread y) rest)
      ∙ lexes (spread y ++ rest)
      ∙ ap (λ s. ts ++ s) (lexes' rest)
      ∙ sym (append_assoc ts us _),
)

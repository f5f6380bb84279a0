-- ===== src/Lvm2/Text/Lexing.antt =====
-- osbuild/util/lvm2.py: which tokens `decode_data` makes of a text, by the parts of the text.
use mathlib.Core.List.{append_assoc, append-nil}
use osbuild.Prelude.{
  ℕ, Bool, true, false, [], ◌∷◌, ◌++◌, All, if◌then◌else◌, same_number, ◌≡◌, refl, sym, ap, ◌∙◌,
  arith, Bool-cases, inl, inr,
}
use osbuild.Lvm2.Text.{
  Text, is_space, drop_comments, replace, open_bracket, close_bracket, quote, separator, collapse,
  drop_nul, flushed, split,
}

abbrev pub IsNotHash : ℕ → Type 0
IsNotHash c = same_number c b'#' ≡ false

-- The four substitutions of single characters.
unfoldable pub spread : Text → Text
spread s = replace separator (replace quote (replace close_bracket (replace open_bracket s)))

replace-append : (by : ℕ → Text) (s t : Text) → replace by (s ++ t) ≡ replace by s ++ replace by t
unfolding replace
replace-append by [] t = refl
replace-append by (c ∷ s) t = rw (replace-append by s t) (sym (append_assoc (by c) _ _))

pub spread-append : (s t : Text) → spread (s ++ t) ≡ spread s ++ spread t
unfolding spread
spread-append s t =
    rw
      (
        replace-append open_bracket s t,
        replace-append close_bracket (replace open_bracket s) (replace open_bracket t),
        replace-append quote (replace close_bracket (replace open_bracket s))
            (replace close_bracket (replace open_bracket t)),
      )
      (replace-append separator _ _)

pub drop_comments-none : (s : Text) → All IsNotHash s → drop_comments false s ≡ s
unfolding drop_comments
drop_comments-none [] h = refl
drop_comments-none (c ∷ s) h = rw h.0 (ap (λ x. c ∷ x) (drop_comments-none s h.1))

-- Whether a space is one or many does not count for `split`.
pub split-collapse :
    (word s : Text)
    → (split word (collapse false s) ≡ split word s) × (split [] (collapse true s) ≡ split [] s)
unfolding split collapse is_space
split-collapse word [] = (refl, refl)
split-collapse word (c ∷ s) = elim (Bool-cases (is_space c)) [
  | inl space ↦
      let (_, after) = split-collapse [] s in rw space (ap (λ x. flushed word ++ x) after, after)
  | inr other ↦
      let (longer, _) = split-collapse (word ++ c ∷ []) s in
      let (fresh, _) = split-collapse (c ∷ []) s in rw (other, split) (rw other (longer, fresh))
]

pub collapse-snoc :
    (after : Bool) (s : Text) → collapse after (s ++ 0 ∷ []) ≡ collapse after s ++ 0 ∷ []
unfolding collapse is_space
collapse-snoc after [] = refl
collapse-snoc after (c ∷ s) = elim (Bool-cases (is_space c)) [
  | inl space ↦ rw space (snoc_space after (collapse-snoc true s))
  | inr other ↦ rw other (ap (λ x. c ∷ x) (collapse-snoc false s))
]
  where
    snoc_space :
        (b : Bool)
        → collapse true (s ++ 0 ∷ []) ≡ collapse true s ++ 0 ∷ []
        → (if b then collapse true (s ++ 0 ∷ []) else 32 ∷ collapse true (s ++ 0 ∷ []))
          ≡ (if b then collapse true s else 32 ∷ collapse true s) ++ 0 ∷ []
    snoc_space true e = e
    snoc_space false e = ap (λ x. 32 ∷ x) e

pub drop_nul-snoc : (s : Text) → drop_nul (s ++ 0 ∷ []) ≡ s
unfolding drop_nul
drop_nul-snoc [] = refl
drop_nul-snoc (c ∷ []) = ground arith
drop_nul-snoc (c ∷ d ∷ []) = ground arith
drop_nul-snoc (c ∷ d ∷ e ∷ s) = ap (λ x. c ∷ x) (drop_nul-snoc (d ∷ e ∷ s))

pub split-space : (c : ℕ) (s : Text) → is_space c ≡ true → split [] (c ∷ s) ≡ split [] s
unfolding split
split-space c s space = rw space refl

-- What stands in a word: no space, and not touched.
abbrev pub IsLetter : ℕ → Type 0
IsLetter c = is_space c ≡ false

pub split-letters :
    (word s rest : Text) (c : ℕ)
    → All IsLetter s
    → is_space c ≡ true
    → split word (s ++ c ∷ rest) ≡ flushed (word ++ s) ++ split [] (c ∷ rest)
unfolding split
split-letters word [] rest c h space = rw (space, append-nil word) refl
split-letters word (d ∷ s) rest c h space =
    rw h.0
      (split-letters (word ++ d ∷ []) s rest c h.1 space ∙ rw (append_assoc word (d ∷ []) s) refl)

-- ===== src/Lvm2/Encode/Spelled.antt =====
-- osbuild/util/lvm2.py: what `encode_data` writes for readable metadata spells its tokens.
use mathlib.Core.List.{append-nil}
use osbuild.Prelude.{false, List, [], ◌∷◌, ◌++◌, All, ◌≡◌, refl, ap, ◌∙◌, ok}
use osbuild.Lvm2.Text.{Text, is_space, str_ℤ, split}
use osbuild.Lvm2.Text.Spelling.{Spells, Lines, Spells-nil, Lines-nil, Lines-Spells, Lines-append}
use osbuild.Lvm2.Text.Parts.{
  is_special, IsWord, Spells-word, Spells-blank, Lines-blank, Lines-line, Spells-comma, Spells-mark,
  Spells-close, Lines-equals, Spells-open, split-word, split-word_blank,
}
use osbuild.Lvm2.Text.Decimal.{str_ℤ-IsWord}
use osbuild.Lvm2.Metadata.{
  Value, int, float, text, array, section, Items, nil, cons, Entries, end, entry,
}
use osbuild.Lvm2.Encode.{encode_val, encode_items, encode_dict, behind_key}
use osbuild.Lvm2.Encode.Tokens.{
  joined, IsPhrase, IsReadable, IsScalar, AreScalars, AreReadable, tokens, item_tokens,
  entry_tokens,
}

Spells-joined : (words : List Text) → All IsWord words → Spells (joined words) words
Spells-joined [] h = Spells-nil
Spells-joined (w ∷ []) h = Spells-word w h.0
Spells-joined (w ∷ v ∷ rest) h =
    Spells-blank w (w ∷ []) (Spells-word w h.0) (joined (v ∷ rest)) (v ∷ rest)
      (Spells-joined (v ∷ rest) h.1)

pub split-joined : (words : List Text) → All IsWord words → split [] (joined words) ≡ words
split-joined [] h = unfold split in refl
split-joined (w ∷ []) h = split-word w h.0
split-joined (w ∷ v ∷ rest) h =
    split-word_blank w (joined (v ∷ rest)) h.0 ∙ ap (λ ts. w ∷ ts) (split-joined (v ∷ rest) h.1)

Spells-text : (s : Text) → IsPhrase s → Spells (b'"' ∷ (s ++ b'"' ∷ [])) (tokens (text s))
Spells-text s (words, are_words, e) =
    let same : split [] s ≡ words = rw e (split-joined words are_words) in
    let inner : Spells s (split [] s) = rw (same, e) (Spells-joined words are_words) in
    Spells-mark [] [] Spells-nil (s ++ b'"' ∷ []) _
      (Spells-mark s (split [] s) inner [] [] Spells-nil)

-- What is written for a value, and that it spells its tokens.
abbrev Written : Value → Type 0
Written v = (x : Text) × (encode_val v ≡ ok x) × Spells x (tokens v)

scalar-Written : (v : Value) → IsScalar v → Written v
unfolding encode_val
scalar-Written (int n) h = (str_ℤ n, refl, Spells-word (str_ℤ n) (str_ℤ-IsWord n))
scalar-Written (text s) h = (b'"' ∷ (s ++ b'"' ∷ []), refl, Spells-text s h)
scalar-Written (float s) h = absurd h
scalar-Written (array xs) h = absurd h
scalar-Written (section es) h = absurd h

-- Behind an item, the others.
items-Written :
    (xs : Items)
    → AreScalars xs
    → (x : Text) × (encode_items false xs ≡ ok x)
      × ((s : Text) (us : List Text) → Spells s us → Spells (s ++ x) (us ++ item_tokens xs))
unfolding encode_items
items-Written nil h = ([], refl, λ s us spelled. rw (append-nil s, append-nil us) spelled)
items-Written (cons v vs) h =
    let (y, written, spelled) = scalar-Written v h.0 in
    let (z, written', follows) = items-Written vs h.1 in
    (
      b',' ∷ b' ' ∷ (y ++ z),
      rw (written, written') refl,
      λ s us before.
          Spells-comma s us before (y ++ z) (tokens v ++ item_tokens vs)
            (follows y (tokens v) spelled),
    )

array-Written : (xs : Items) → AreScalars xs → Written (array xs)
unfolding encode_items
array-Written nil h = (
  b'[' ∷ b']' ∷ [],
  refl,
  Spells-open (b']' ∷ []) ((b']' ∷ []) ∷ []) (Spells-close [] [] Spells-nil),
)
array-Written (cons v vs) h =
    let (y, written, spelled) = scalar-Written v h.0 in
    let (z, written', follows) = items-Written vs h.1 in
    (
      b'[' ∷ ((y ++ z) ++ b']' ∷ []),
      rw (written, written') refl,
      Spells-open ((y ++ z) ++ b']' ∷ []) ((tokens v ++ item_tokens vs) ++ (b']' ∷ []) ∷ [])
          (Spells-close (y ++ z) (tokens v ++ item_tokens vs) (follows y (tokens v) spelled)),
    )

-- A section, from the texts of its entries.
section-Lines :
    (s : Text) (ts : List Text)
    → Lines s ts
    → Lines (b'{' ∷ b'\n' ∷ (s ++ b'}' ∷ b'\n' ∷ [])) ((b'{' ∷ []) ∷ (ts ++ (b'}' ∷ []) ∷ []))
unfolding is_special is_space
section-Lines s ts lines =
    let closing : Lines (b'}' ∷ b'\n' ∷ []) ((b'}' ∷ []) ∷ []) =
      Lines-line (b'}' ∷ []) ((b'}' ∷ []) ∷ []) (Spells-word (b'}' ∷ []) (refl, tt)) [] []
        Lines-nil in
    Lines-line (b'{' ∷ []) ((b'{' ∷ []) ∷ []) (Spells-word (b'{' ∷ []) (refl, tt)) _ _
      (Lines-append s (b'}' ∷ b'\n' ∷ []) ts ((b'}' ∷ []) ∷ []) lines closing)

-- An entry, from its value and the entries behind it.
entry-Lines :
    (k : Text) (v : Value) (x y : Text) (ts us : List Text)
    → IsWord k
    → Spells x ts
    → Lines y us
    → Lines (k ++ (behind_key v ++ (x ++ b'\n' ∷ y))) (k ∷ (ts ++ us))
entry-Lines k v x y ts us word spelled lines =
    let value = Lines-line x ts spelled y us lines in
    let named : Lines (k ++ b' ' ∷ b'=' ∷ b' ' ∷ (x ++ b'\n' ∷ y)) (k ∷ (ts ++ us)) =
      Lines-blank k (k ∷ []) (Spells-word k word) (b'=' ∷ b' ' ∷ (x ++ b'\n' ∷ y)) (ts ++ us) (
        Lines-equals (b' ' ∷ (x ++ b'\n' ∷ y)) (ts ++ us)
          (Lines-blank [] [] Spells-nil (x ++ b'\n' ∷ y) (ts ++ us) value)) in
    let headed : Lines (k ++ b' ' ∷ (x ++ b'\n' ∷ y)) (k ∷ (ts ++ us)) =
      Lines-blank k (k ∷ []) (Spells-word k word) (x ++ b'\n' ∷ y) (ts ++ us) value in
    by_kind v named headed
  where
    by_kind :
        (w : Value)
        → Lines (k ++ b' ' ∷ b'=' ∷ b' ' ∷ (x ++ b'\n' ∷ y)) (k ∷ (ts ++ us))
        → Lines (k ++ b' ' ∷ (x ++ b'\n' ∷ y)) (k ∷ (ts ++ us))
        → Lines (k ++ (behind_key w ++ (x ++ b'\n' ∷ y))) (k ∷ (ts ++ us))
    by_kind (int n) a b = a
    by_kind (float s) a b = a
    by_kind (text s) a b = a
    by_kind (array xs) a b = a
    by_kind (section es) a b = b

mutual
  unfolding encode_val encode_dict

  value-Written : (v : Value) → IsReadable v → Written v
  value-Written (int n) h = scalar-Written (int n) tt
  value-Written (text s) h = scalar-Written (text s) h
  value-Written (float s) h = absurd h
  value-Written (array xs) h = array-Written xs h
  value-Written (section es) h =
      let (x, written, lines) = entries-Written es h in
      (
        b'{' ∷ b'\n' ∷ (x ++ b'}' ∷ b'\n' ∷ []),
        rw written refl,
        Lines-Spells _ (tokens (section es)) (section-Lines x (entry_tokens es) lines),
      )

  -- `encode_dict` writes readable entries, and they spell their tokens.
  pub entries-Written :
      (es : Entries)
      → AreReadable es
      → (x : Text) × (encode_dict es ≡ ok x) × Lines x (entry_tokens es)
  entries-Written end h = ([], refl, Lines-nil)
  entries-Written (entry k v es) (word, closes, readable, lacks, rest) =
      let (x, written, spelled) = value-Written v readable in
      let (y, written', lines) = entries-Written es rest in
      (
        k ++ (behind_key v ++ (x ++ b'\n' ∷ y)),
        rw (written, written') refl,
        entry-Lines k v x y (tokens v) (entry_tokens es) word spelled lines,
      )

-- ===== src/Lvm2/Encode/Tokens.antt =====
-- osbuild/util/lvm2.py: metadata whose text can be read back, and the tokens of that text.
use osbuild.Prelude.{false, List, [], ◌∷◌, ◌++◌, All, ◌≡◌}
use osbuild.Lvm2.Text.{Text, str_ℤ, split}
use osbuild.Lvm2.Text.Parts.{IsWord}
use osbuild.Lvm2.Metadata.{
  Value, int, float, text, array, section, Items, nil, cons, Entries, end, entry, dict_start,
  dict_end, array_start, array_end, string_mark, same_text,
}

abbrev pub joined : List Text → Text
joined [] = []
joined (w ∷ []) = w
joined (w ∷ v ∷ rest) = w ++ b' ' ∷ joined (v ∷ rest)

-- Words with one space between two of them.
abbrev pub IsPhrase : Text → Type 0
IsPhrase s = (words : List Text) × All IsWord words × (s ≡ joined words)

abbrev pub Lacks : Text → Entries → Type 0
Lacks k end = Unit
Lacks k (entry j v rest) = (same_text k j ≡ false) × Lacks k rest

-- Integers, phrases, lists of these, and sections with words as keys, each once and no closing brace.
abbrev mutual
  pub IsReadable : Value → Type 0
  IsReadable (int n) = Unit
  IsReadable (float s) = ⊥
  IsReadable (text s) = IsPhrase s
  IsReadable (array xs) = AreScalars xs
  IsReadable (section es) = AreReadable es

  pub IsScalar : Value → Type 0
  IsScalar (int n) = Unit
  IsScalar (text s) = IsPhrase s
  IsScalar v = ⊥

  pub AreScalars : Items → Type 0
  AreScalars nil = Unit
  AreScalars (cons x xs) = IsScalar x × AreScalars xs

  pub AreReadable : Entries → Type 0
  AreReadable end = Unit
  AreReadable (entry k v es) =
      IsWord k × (same_text k dict_end ≡ false) × IsReadable v × Lacks k es × AreReadable es

-- The tokens of the text that is written.
abbrev mutual
  pub tokens : Value → List Text
  tokens (int n) = str_ℤ n ∷ []
  tokens (float s) = s ∷ []
  tokens (text s) = string_mark ∷ (split [] s ++ string_mark ∷ [])
  tokens (array xs) = array_start ∷ (item_tokens xs ++ array_end ∷ [])
  tokens (section es) = dict_start ∷ (entry_tokens es ++ dict_end ∷ [])

  pub item_tokens : Items → List Text
  item_tokens nil = []
  item_tokens (cons x xs) = tokens x ++ item_tokens xs

  pub entry_tokens : Entries → List Text
  entry_tokens end = []
  entry_tokens (entry k v es) = k ∷ (tokens v ++ entry_tokens es)

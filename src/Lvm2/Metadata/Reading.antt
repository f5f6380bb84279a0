-- ===== src/Lvm2/Metadata/Reading.antt =====
-- osbuild/util/lvm2.py: the tokens of readable metadata are read as it.
use mathlib.Core.List.{append_assoc, append-nil}
use osbuild.Prelude.{
  ℕ, zero, suc, ◌<◌, Bool, List, [], ◌∷◌, ◌++◌, length, length-append, ◌≡◌, refl, sym, ap, ◌∙◌,
  some, ok, arith,
}
use osbuild.Prelude.Int.{ℤ}
use osbuild.Lvm2.Text.{Text, str_ℤ, split}
use osbuild.Lvm2.Text.Decimal.{int_of-str_ℤ, str_ℤ-IsWord, str_ℤ-has_point, str_ℤ-no_brace}
use osbuild.Lvm2.Encode.Tokens.{
  IsPhrase, Lacks, IsReadable, IsScalar, AreScalars, AreReadable, tokens, item_tokens, entry_tokens,
}
use osbuild.Lvm2.Encode.Spelled.{split-joined}
use osbuild.Lvm2.Metadata.{
  Value, int, float, text, array, section, Items, nil, cons, Entries, end, entry, put, items_append,
  dict_end, string_mark, array_end, parse_type, parse_array, parse_section, parse_value,
}
use osbuild.Lvm2.Metadata.Strings.{word_not_mark, parse_str-joined}

items_plus : Items → Items → Items
items_plus nil ys = ys
items_plus (cons x xs) ys = cons x (items_plus xs ys)

items_plus-append :
    (acc : Items) (v : Value) (vs : Items)
    → items_plus (items_append acc v) vs ≡ items_plus acc (cons v vs)
unfolding items_plus items_append
items_plus-append nil v vs = refl
items_plus-append (cons x xs) v vs = ap (cons x) (items_plus-append xs v vs)

plus : Entries → Entries → Entries
plus end es = es
plus (entry k v d) es = entry k v (plus d es)

plus-end : (d : Entries) → plus d end ≡ d
unfolding plus
plus-end end = refl
plus-end (entry k v d) = ap (entry k v) (plus-end d)

plus_assoc : (a b c : Entries) → plus (plus a b) c ≡ plus a (plus b c)
unfolding plus
plus_assoc end b c = refl
plus_assoc (entry k v a) b c = ap (entry k v) (plus_assoc a b c)

-- No key of the first entries is one of the second.
Apart : Entries → Entries → Type 0
Apart end es = Unit
Apart (entry k v d) es = Lacks k es × Apart d es

put-Apart :
    (d : Entries) (k : Text) (v : Value) (es : Entries)
    → Apart d (entry k v es)
    → put k v d ≡ plus d (entry k v end)
unfolding put plus Apart
put-Apart end k v es h = refl
put-Apart (entry j w d) k v es h = rw h.0.0 (ap (entry j w) (put-Apart d k v es h.1))

Apart-plus :
    (d : Entries) (k : Text) (v : Value) (es : Entries)
    → Apart d (entry k v es)
    → Lacks k es
    → Apart (plus d (entry k v end)) es
unfolding plus Apart
Apart-plus end k v es h lacks = (lacks, tt)
Apart-plus (entry j w d) k v es h lacks = (h.0.1, Apart-plus d k v es h.1 lacks)

items_plus-nil : (xs : Items) → xs ≡ items_plus xs nil
unfolding items_plus
items_plus-nil nil = refl
items_plus-nil (cons x xs) = ap (cons x) (items_plus-nil xs)

length-tokens_pos : (v : Value) → 0 < length (tokens v)
length-tokens_pos (int n) = omega arith
length-tokens_pos (float s) = omega arith
length-tokens_pos (text s) = omega arith
length-tokens_pos (array xs) = omega arith
length-tokens_pos (section es) = omega arith

module _ (is_float : Text → Bool) where
  parse_type-int :
      (n : ℤ) (rest : List Text) → parse_type is_float (str_ℤ n ∷ rest) ≡ some (ok (int n, rest))
  unfolding parse_type
  parse_type-int n rest =
      rw ((word_not_mark (str_ℤ n) (str_ℤ-IsWord n)).0, str_ℤ-has_point n, int_of-str_ℤ n) refl

  parse_type-text :
      (s : Text) (rest : List Text)
      → IsPhrase s
      → parse_type is_float (string_mark ∷ (split [] s ++ string_mark ∷ rest))
        ≡ some (ok (text s, rest))
  unfolding parse_type
  parse_type-text s rest (words, are_words, e) =
      rw (e, split-joined words are_words) (parse_str-joined words rest are_words)

  scalar_read :
      (v : Value) (rest : List Text)
      → IsScalar v
      → parse_type is_float (tokens v ++ rest) ≡ some (ok (v, rest))
  scalar_read (int n) rest h = parse_type-int n rest
  scalar_read (text s) rest h =
      ap (λ ts. parse_type is_float (string_mark ∷ ts))
        (append_assoc (split [] s) (string_mark ∷ []) rest)
      ∙ parse_type-text s rest h
  scalar_read (float s) rest h = absurd h
  scalar_read (array xs) rest h = absurd h
  scalar_read (section es) rest h = absurd h

  array_step :
      (f : ℕ) (acc : Items) (v : Value) (rest : List Text)
      → IsScalar v
      → parse_array is_float (suc f) acc (tokens v ++ rest)
        ≡ parse_array is_float f (items_append acc v) rest
  unfolding parse_array
  array_step f acc (int n) rest h =
      let (_, _, closing, _) = word_not_mark (str_ℤ n) (str_ℤ-IsWord n) in
      rw (closing, scalar_read (int n) rest h) refl
  array_step f acc (text s) rest h = rw (scalar_read (text s) rest h) refl
  array_step f acc (float s) rest h = absurd h
  array_step f acc (array xs) rest h = absurd h
  array_step f acc (section es) rest h = absurd h

  array_read :
      (f : ℕ) (acc xs : Items) (rest : List Text)
      → AreScalars xs
      → length (item_tokens xs) < f
      → parse_array is_float f acc (item_tokens xs ++ array_end ∷ rest)
        ≡ some (ok (array (items_plus acc xs), rest))
  unfolding parse_array
  array_read zero acc xs rest h enough = absurd (omega arith)
  array_read (suc f) acc nil rest h enough =
      ap (λ x. some (ok (array x, rest))) (items_plus-nil acc)
  array_read (suc f) acc (cons v vs) rest h enough =
      ap (parse_array is_float (suc f) acc)
        (append_assoc (tokens v) (item_tokens vs) (array_end ∷ rest))
      ∙ array_step f acc v (item_tokens vs ++ array_end ∷ rest) h.0
      ∙ array_read f (items_append acc v) vs rest h.1
          (omega (arith, length-append (tokens v) (item_tokens vs), length-tokens_pos v))
      ∙ ap (λ x. some (ok (array x, rest))) (items_plus-append acc v vs)

  mutual
    unfolding parse_value parse_section items_plus plus Apart

    value_read :
        (v : Value) (f : ℕ) (rest : List Text)
        → IsReadable v
        → length (tokens v) < suc f
        → parse_value is_float f (tokens v ++ rest) ≡ some (ok (v, rest))
    value_read v zero rest h enough = absurd (omega (arith, length-tokens_pos v))
    value_read (int n) (suc g) rest h enough =
        let (_, opening, _, _) = word_not_mark (str_ℤ n) (str_ℤ-IsWord n) in
        rw (str_ℤ-no_brace n, opening) (parse_type-int n rest)
    value_read (text s) (suc g) rest h enough = scalar_read (text s) rest h
    value_read (float s) (suc g) rest h enough = absurd h
    value_read (array xs) (suc g) rest h enough =
        ap (parse_array is_float g nil) (append_assoc (item_tokens xs) (array_end ∷ []) rest)
        ∙ array_read g nil xs rest h
            (omega (arith, length-append (item_tokens xs) (array_end ∷ [])))
    value_read (section es) (suc g) rest h enough =
        rw
          (
            append_assoc (entry_tokens es) (dict_end ∷ []) rest,
            entries_read es g end (dict_end ∷ rest) rest h tt
                (omega (arith, length-append (entry_tokens es) (dict_end ∷ []))) (λ k d. refl),
          )
          refl

    -- Where the tokens behind some entries end a section, these are read behind those that are there.
    entries_read :
        (es : Entries) (f : ℕ) (acc : Entries) (stop rest : List Text)
        → AreReadable es
        → Apart acc es
        → length (entry_tokens es) < f
        → ((k : ℕ) (d : Entries) → parse_section is_float (suc k) d stop ≡ some (ok (d, rest)))
        → parse_section is_float f acc (entry_tokens es ++ stop) ≡ some (ok (plus acc es, rest))
    entries_read es zero acc stop rest h apart enough stops = absurd (omega arith)
    entries_read end (suc g) acc stop rest h apart enough stops =
        stops g acc ∙ ap (λ d. some (ok (d, rest))) (sym (plus-end acc))
    entries_read (entry k v es) (suc g) acc stop rest (word, closes, readable, lacks, others) apart
          enough stops =
        let (_, _, _, filled) = word_not_mark k word in
        let read =
          value_read v g (entry_tokens es ++ stop) readable
            (omega (arith, length-append (tokens v) (entry_tokens es))) in
        let more =
          entries_read es g (plus acc (entry k v end)) stop rest others
            (Apart-plus acc k v es apart lacks)
            (omega (arith, length-append (tokens v) (entry_tokens es), length-tokens_pos v))
            stops in
        rw
          (
            filled,
            closes,
            append_assoc (tokens v) (entry_tokens es) stop,
            read,
            put-Apart acc k v es apart,
            more,
          )
          (ap (λ d. some (ok (d, rest))) (plus_assoc acc (entry k v end) es))

-- The tokens of readable metadata are read as it.
pub parse_section-tokens :
    (is_float : Text → Bool) (es : Entries) (f : ℕ)
    → AreReadable es
    → length (entry_tokens es) < f
    → parse_section is_float f end (entry_tokens es) ≡ some (ok (es, []))
unfolding plus Apart parse_section
parse_section-tokens is_float es f h enough =
    ap (parse_section is_float f end) (sym (append-nil (entry_tokens es)))
    ∙ entries_read is_float es f end [] [] h tt enough (λ k d. refl)

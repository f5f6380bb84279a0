-- ===== src/Lvm2/Volumes/Renamed.antt =====
-- osbuild/util/lvm2.py: metadata that is written and read again, also after `rename_vg`.
use osbuild.Prelude.{
  ℕ, Bool, true, false, none, some, List, [], ◌∷◌, ◌≡◌, refl, ap, subst, ok, err, key_error, arith,
}
use osbuild.Lvm2.Text.{Text}
use osbuild.Lvm2.Text.Parts.{IsWord}
use osbuild.Lvm2.Metadata.{Value, Entries, end, entry, put, same_text, dict_end}
use osbuild.Lvm2.Encode.Tokens.{Lacks, IsReadable, AreReadable}
use osbuild.Lvm2.RoundTrip.{decode_data-encode_data}
use osbuild.Lvm2.Volumes.{Codec, Volumes, lookup, remove, move_to_front, rename_vg, decode, encode}

same_text_refl : (s : Text) → same_text s s ≡ true
same_text_refl [] = refl
same_text_refl (c ∷ s) = ground (arith, same_text_refl s)

same_text_sym : (s t : Text) → same_text s t ≡ same_text t s
same_text_sym [] [] = refl
same_text_sym [] (d ∷ t) = refl
same_text_sym (c ∷ s) [] = refl
same_text_sym (c ∷ s) (d ∷ t) = ground (arith, same_text_sym s t)

-- An entry behind the others.
behind : Entries → Text → Value → Entries
behind end k v = entry k v end
behind (entry j w es) k v = entry j w (behind es k v)

remove-Lacks : (k : Text) (es : Entries) → Lacks k es → remove k es ≡ es
unfolding remove
remove-Lacks k end h = refl
remove-Lacks k (entry j w es) h =
    rw (same_text_sym j k, h.0) (ap (entry j w) (remove-Lacks k es h.1))

put-Lacks : (k : Text) (v : Value) (es : Entries) → Lacks k es → put k v es ≡ behind es k v
unfolding put behind
put-Lacks k v end h = refl
put-Lacks k v (entry j w es) h = rw (same_text_sym j k, h.0) (ap (entry j w) (put-Lacks k v es h.1))

lookup-behind :
    (k : Text) (v : Value) (es : Entries) → Lacks k es → lookup k (behind es k v) ≡ some v
unfolding lookup behind
lookup-behind k v end h = rw (same_text_refl k) refl
lookup-behind k v (entry j w es) h = rw (same_text_sym j k, h.0) (lookup-behind k v es h.1)

remove-behind : (k : Text) (v : Value) (es : Entries) → Lacks k es → remove k (behind es k v) ≡ es
unfolding remove behind
remove-behind k v end h = rw (same_text_refl k) refl
remove-behind k v (entry j w es) h =
    rw (same_text_sym j k, h.0) (ap (entry j w) (remove-behind k v es h.1))

move_to_front-put :
    (k : Text) (v : Value) (es : Entries) → Lacks k es → move_to_front k (put k v es) ≡ entry k v es
unfolding move_to_front
move_to_front-put k v es h =
    rw (put-Lacks k v es h, lookup-behind k v es h, remove-behind k v es h) refl

-- Metadata as `decode` gives it: the name is that of the first entry.
abbrev pub volumes : Text → Value → Entries → Volumes
volumes k v rest = record { vg_name = some k; content = entry k v rest }

module _ (k new_name : Text) (v : Value) (rest : Entries) (old : Lacks k rest)
    (new : Lacks new_name rest) where
  pub rename_vg_lem :
      rename_vg new_name (volumes k v rest)
      ≡ ok (record { vg_name = some k; content = entry new_name v rest })
  unfolding rename_vg lookup remove
  rename_vg_lem =
      rw (same_text_refl k, remove-Lacks k rest old, move_to_front-put new_name v rest new) refl

  lookup-Lacks : (es : Entries) → Lacks k es → lookup k es ≡ none
  unfolding lookup
  lookup-Lacks end h = refl
  lookup-Lacks (entry j w es) h = rw (same_text_sym j k, h.0) (lookup-Lacks es h.1)

  rename_vg-old :
      (third : Text)
      → same_text k new_name ≡ false
      → rename_vg third (record { vg_name = some k; content = entry new_name v rest })
        ≡ err key_error
  unfolding rename_vg lookup
  rename_vg-old third apart = rw (same_text_sym new_name k, apart, lookup-Lacks rest old) refl

  -- Metadata that was renamed to another name cannot be renamed again: the object keeps the old name,
  -- which is a key no more.
  pub rename_vg-rename_vg :
      (third : Text) {renamed : Volumes}
      → same_text k new_name ≡ false
      → rename_vg new_name (volumes k v rest) ≡ ok renamed
      → rename_vg third renamed ≡ err key_error
  rename_vg-rename_vg third {renamed} apart e =
      let same : record { vg_name = some k; content = entry new_name v rest } ≡ renamed =
        cc (e, rename_vg_lem) in
      subst (λ md. rename_vg third md ≡ err key_error) same (rename_vg-old third apart)

  -- Readable metadata that is renamed, written and read has the new name, and else the same content, with
  -- the volume group as its first entry.
  pub decode-encode-rename_vg :
      (utf8 : Codec) (is_float : Text → Bool)
      → ((s : Text) → utf8.decode (utf8.encode s) ≡ some s)
      → IsWord new_name
      → same_text new_name dict_end ≡ false
      → IsReadable v
      → AreReadable rest
      → (renamed : Volumes) × (rename_vg new_name (volumes k v rest) ≡ ok renamed)
        × (raw : List ℕ) × (encode utf8 renamed ≡ ok raw)
        × (decode utf8 is_float raw ≡ some (ok (volumes new_name v rest)))
  unfolding encode decode
  decode-encode-rename_vg utf8 is_float restores word closes readable others =
      let (raw, written, read) =
        decode_data-encode_data is_float (entry new_name v rest)
          (word, closes, readable, new, others) in
      (
        record { vg_name = some k; content = entry new_name v rest },
        rename_vg_lem,
        utf8.encode raw,
        rw written refl,
        rw (restores raw, read) refl,
      )

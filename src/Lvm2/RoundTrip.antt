-- ===== src/Lvm2/RoundTrip.antt =====
-- osbuild/util/lvm2.py: `Metadata.encode_data` and `decode_data`, one behind the other.
use osbuild.Prelude.{suc, Option, none, some, [], ◌∷◌, ◌++◌, length, ◌≡◌, refl, ap, ok, Bool, arith}
use osbuild.Lvm2.Text.{Text}
use osbuild.Lvm2.Text.Parts.{split-Lines}
use osbuild.Lvm2.Metadata.{Entries, end, entry, first_token, decode_data}
use osbuild.Lvm2.Metadata.Reading.{parse_section-tokens}
use osbuild.Lvm2.Encode.{encode_data}
use osbuild.Lvm2.Encode.Tokens.{AreReadable, entry_tokens}
use osbuild.Lvm2.Encode.Spelled.{entries-Written}

abbrev pub first_key : Entries → Option Text
first_key end = none
first_key (entry k v es) = some k

first_token-entries : (es : Entries) → first_token (entry_tokens es) ≡ first_key es
first_token-entries end = refl
first_token-entries (entry k v es) = refl

-- Metadata of integers, strings of words with one blank between them, lists of these, and sections,
-- whose keys are words other than a closing brace and no two of a section the same, can be written, and
-- what is written is read as the same metadata, with its first key as the name.
pub decode_data-encode_data :
    (is_float : Text → Bool) (es : Entries)
    → AreReadable es
    → (raw : Text) × (encode_data es ≡ ok raw)
      × (decode_data is_float raw ≡ some (ok (first_key es, es)))
unfolding encode_data decode_data
decode_data-encode_data is_float es h =
    let (s, written, lines) = entries-Written es h in
    let found = split-Lines s (entry_tokens es) lines in
    (
      s ++ 0 ∷ [],
      rw written refl,
      rw (found, parse_section-tokens is_float es (suc (length (entry_tokens es))) h (omega arith))
          (ap (λ name. some (ok (name, es))) (first_token-entries es)),
    )

-- ===== src/Lvm2/Volumes.antt =====
-- osbuild/util/lvm2.py: the class `Metadata`. The two codecs are parameters: `utf8`, and whether `float`
-- accepts a text.
pub mod Renamed
use osbuild.Prelude.{
  ℕ, String, Bool, true, false, Option, none, some, List, [], ◌∷◌, if◌then◌else◌, Result, ok, err,
  ◌>>=◌, key_error, unicode_error,
}
use Prim.Native.Char.{code}
use Prim.Native.String
use osbuild.Prelude.Int.{ℤ}
use osbuild.Lvm2.Text.{Text}
use osbuild.Lvm2.Metadata.{Value, text, int, Entries, end, entry, put, same_text, decode_data}
use osbuild.Lvm2.Encode.{encode_data}

pub record Codec : Type 0 where
  pub encode : Text → List ℕ
  pub decode : List ℕ → Option Text

pub record Volumes : Type 0 where
  pub vg_name : Option Text
  pub content : Entries

unfoldable pub lookup : Text → Entries → Option Value
lookup k end = none
lookup k (entry j v rest) = if same_text j k then some v else lookup k rest

unfoldable pub remove : Text → Entries → Entries
remove k end = end
remove k (entry j v rest) =
    let others = remove k rest in if same_text j k then others else entry j v others

abbrev moved_front : Text → Option Value → Entries → Entries
moved_front k none es = es
moved_front k (some v) es = entry k v (remove k es)

-- `move_to_end(k, last=False)`
unfoldable pub move_to_front : Text → Entries → Entries
unfolding lookup remove
move_to_front k es = moved_front k (lookup k es) es

abbrev pub found : Option Value → Result Value
found none = err key_error
found (some v) = ok v

abbrev pub value_of : Option Text → Entries → Result Value
value_of none es = err key_error
value_of (some k) es = found (lookup k es)

abbrev pub without : Option Text → Entries → Entries
without none es = es
without (some k) es = remove k es

unfoldable pub rename_vg : Text → Volumes → Result Volumes
unfolding move_to_front
rename_vg new_name md = value_of md.vg_name md.content >>= λ d. ok (record md {
  content = move_to_front new_name (put new_name d (without md.vg_name md.content));
})

abbrev codes : String → Text
codes String.[] = []
codes (String.◌∷◌ c s) = code c ∷ codes s

set_entry : String → Value → Volumes → Volumes
set_entry k v md = record md { content = put (codes k) v md.content }

-- `Disk.set_description` and the others, on the metadata of the disk.
unfoldable pub set_description : Text → Volumes → Volumes
unfolding set_entry
set_description desc = set_entry "description" (text desc)

unfoldable pub set_creation_time : ℤ → Volumes → Volumes
unfolding set_entry
set_creation_time t = set_entry "creation_time" (int t)

unfoldable pub set_creation_host : Text → Volumes → Volumes
unfolding set_entry
set_creation_host host = set_entry "creation_host" (text host)

abbrev metadata_init : Option (Result (Option Text × Entries)) → Option (Result Volumes)
metadata_init none = none
metadata_init (some (err e)) = some (err e)
metadata_init (some (ok (name, es))) = some (ok (record { vg_name = name; content = es }))

module _ (utf8 : Codec) (is_float : Text → Bool) where
  abbrev decoded : Option Text → Option (Result Volumes)
  decoded none = some (err unicode_error)
  decoded (some s) = metadata_init (decode_data is_float s)

  unfoldable pub decode : List ℕ → Option (Result Volumes)
  decode raw = decoded (utf8.decode raw)

unfoldable pub encode : Codec → Volumes → Result (List ℕ)
encode utf8 md = encode_data md.content >>= λ s. ok (utf8.encode s)

-- ===== src/Lvm2/Encode.antt =====
-- osbuild/util/lvm2.py: `Metadata.encode_data`.
pub mod Tokens
pub mod Spelled
use osbuild.Prelude.{
  Bool, true, false, List, [], ◌∷◌, ◌++◌, if◌then◌else◌, Result, ok, err, ◌>>=◌,
  unbound_local_error,
}
use osbuild.Lvm2.Text.{Text, str_ℤ}
use osbuild.Lvm2.Metadata.{
  Value, int, float, text, array, section, Items, nil, cons, Entries, end, entry,
}

abbrev pub is_section : Value → Bool
is_section (section es) = true
is_section v = false

-- `", ".join`, in front of a next item.
abbrev pub comma : Bool → Text
comma first = if first then [] else b',' ∷ b' ' ∷ []

abbrev pub behind_key : Value → Text
behind_key v = if is_section v then b' ' ∷ [] else b' ' ∷ b'=' ∷ b' ' ∷ []

unfoldable mutual
  unfolding str_ℤ

  pub encode_val : Value → Result Text
  encode_val (int n) = ok (str_ℤ n)
  encode_val (float s) = err unbound_local_error
  encode_val (text s) = ok (b'"' ∷ (s ++ b'"' ∷ []))
  encode_val (array xs) = encode_items true xs >>= λ s. ok (b'[' ∷ (s ++ b']' ∷ []))
  encode_val (section es) = encode_dict es >>= λ s. ok (b'{' ∷ b'\n' ∷ (s ++ b'}' ∷ b'\n' ∷ []))

  pub encode_items : Bool → Items → Result Text
  encode_items first nil = ok []
  encode_items first (cons x xs) =
      encode_val x >>= λ s. encode_items false xs >>= λ more. ok (comma first ++ (s ++ more))

  pub encode_dict : Entries → Result Text
  encode_dict end = ok []
  encode_dict (entry k v es) = encode_val v >>= λ s.
      encode_dict es >>= λ more. ok (k ++ (behind_key v ++ (s ++ b'\n' ∷ more)))

unfoldable pub encode_data : Entries → Result Text
unfolding encode_dict
encode_data es = encode_dict es >>= λ s. ok (s ++ 0 ∷ [])

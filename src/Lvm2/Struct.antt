-- ===== src/Lvm2/Struct.antt =====
-- osbuild/util/lvm2.py: `CStruct`, little-endian fields one behind the other, and how Python's files are
-- read and written. A byte is a number.
pub mod Packed
pub mod Files
use Prim.Native.Nat.{◌/◌, ◌%◌}
use osbuild.Prelude.{
  ℕ, zero, suc, ◌+◌, ◌-◌, ◌*◌, ◌^◌, ◌<◌, Bool, true, false, Option, none, some, List, [], ◌∷◌, ◌++◌,
  length, if◌then◌else◌, ltb, Result, ok, err, ◌>>=◌, struct_error,
}

abbrev pub Bytes : Type 0
Bytes = List ℕ

module _ {ℓ} {A : Type ℓ} where
  unfoldable pub take : ℕ → List A → List A
  take zero xs = []
  take (suc n) [] = []
  take (suc n) (x ∷ xs) = x ∷ take n xs

  unfoldable pub drop : ℕ → List A → List A
  drop zero xs = xs
  drop (suc n) [] = []
  drop (suc n) (x ∷ xs) = drop n xs

unfoldable pub replicate : ℕ → ℕ → Bytes
replicate zero b = []
replicate (suc n) b = b ∷ replicate n b

-- `L`, `Q`, and `8s`, `16s` or `32s`
pub data CType : Type 0 where
  u32 : CType
  u64 : CType
  chars : ℕ → CType

pub data Val : Type 0 where
  num : ℕ → Val
  raw : Bytes → Val

unfoldable pub le : ℕ → ℕ → Bytes
le zero n = []
le (suc w) n = (n % 256) ∷ le w (n / 256)

unfoldable pub unle : Bytes → ℕ
unle [] = 0
unle (b ∷ bs) = b + 256 * unle bs

abbrev pub width : CType → ℕ
width u32 = 4
width u64 = 8
width (chars k) = k

-- `CStruct.size`
unfoldable pub size : List CType → ℕ
size [] = 0
size (t ∷ ts) = width t + size ts

unfoldable pub pack_field : CType → Val → Result Bytes
pack_field u32 (num n) = if ltb n 0x1_0000_0000 then ok (le 4 n) else err struct_error
pack_field u64 (num n) = if ltb n 0x1_0000_0000_0000_0000 then ok (le 8 n) else err struct_error
pack_field (chars k) (raw b) = ok (take k b ++ replicate (k - length b) 0)
pack_field u32 (raw b) = err struct_error
pack_field u64 (raw b) = err struct_error
pack_field (chars k) (num n) = err struct_error

-- `CStruct.pack`
unfoldable pub pack : List CType → List Val → Result Bytes
unfolding pack_field
pack [] [] = ok []
pack (t ∷ ts) (v ∷ vs) = pack_field t v >>= λ b. pack ts vs >>= λ more. ok (b ++ more)
pack [] (v ∷ vs) = err struct_error
pack (t ∷ ts) [] = err struct_error

unfoldable pub unpack_field : CType → Bytes → Val
unpack_field u32 s = num (unle (take 4 s))
unpack_field u64 s = num (unle (take 8 s))
unpack_field (chars k) s = raw (take k s)

-- `CStruct.unpack` of enough bytes.
unfoldable pub unpack : List CType → Bytes → List Val
unfolding unpack_field
unpack [] s = []
unpack (t ∷ ts) s = unpack_field t s ∷ unpack ts (drop (width t) s)

-- `CStruct.read`: the values, if there are enough bytes, and what is behind them.
unfoldable pub read_struct : List CType → Bytes → Option (List Val) × Bytes
unfolding size unpack
read_struct ts s = (
  if ltb (length (take (size ts) s)) (size ts) then none else some (unpack ts (take (size ts) s)),
  drop (size ts) s,
)

overwrite : Bytes → Bytes → Bytes
overwrite [] f = f
overwrite (b ∷ bs) [] = b ∷ overwrite bs []
overwrite (b ∷ bs) (x ∷ f) = b ∷ overwrite bs f

-- `seek` and `write` on a file: behind its end it is filled with zeros, unless nothing is written.
unfoldable pub write_at : ℕ → Bytes → Bytes → Bytes
unfolding overwrite
write_at p [] f = f
write_at zero (b ∷ bs) f = overwrite (b ∷ bs) f
write_at (suc p) (b ∷ bs) [] = 0 ∷ write_at p (b ∷ bs) []
write_at (suc p) (b ∷ bs) (x ∷ f) = x ∷ write_at p (b ∷ bs) f

-- `seek` and `read`
unfoldable pub read_at : ℕ → ℕ → Bytes → Bytes
read_at p n f = take n (drop p f)

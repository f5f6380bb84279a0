-- ===== src/Lvm2/Struct/Packed.antt =====
-- osbuild/util/lvm2.py: what `CStruct.read` makes of packed values.
use Prim.Native.Nat.{◌/◌}
use mathlib.Core.List.{append_assoc, append-nil}
use osbuild.Prelude.{
  ℕ, zero, suc, ◌-◌, ◌<◌, List, [], ◌∷◌, ◌++◌, length, length-append, ◌≡◌, refl, sym, ap, ap₂, ◌∙◌,
  ok, arith,
}
use osbuild.Lvm2.Struct.{
  Bytes, take, drop, replicate, CType, u32, u64, chars, Val, num, raw, le, unle, width, size,
  pack_field, pack, unpack_field, unpack,
}
use osbuild.Lvm2.Struct.Files.{take-append_whole, drop-append_whole}

-- A value that a field can hold whole.
abbrev pub Fits : CType → Val → Type 0
Fits u32 (num n) = n < 0x1_0000_0000
Fits u64 (num n) = n < 0x1_0000_0000_0000_0000
Fits (chars k) (raw b) = length b ≡ k
Fits u32 (raw b) = ⊥
Fits u64 (raw b) = ⊥
Fits (chars k) (num n) = ⊥

abbrev pub AllFit : List CType → List Val → Type 0
AllFit [] [] = Unit
AllFit (t ∷ ts) (v ∷ vs) = Fits t v × AllFit ts vs
AllFit [] (v ∷ vs) = ⊥
AllFit (t ∷ ts) [] = ⊥

pub length-le : (w n : ℕ) → length (le w n) ≡ w
unfolding le
length-le zero n = refl
length-le (suc w) n = ap suc (length-le w (n / 256))

unle-le4 : (n : ℕ) → n < 0x1_0000_0000 → unle (le 4 n) ≡ n
unfolding le unle
unle-le4 n h = omega arith

unle-le8 : (n : ℕ) → n < 0x1_0000_0000_0000_0000 → unle (le 8 n) ≡ n
unfolding le unle
unle-le8 n h = omega arith

-- A packed field has its width and is unpacked as the value.
field_packed :
    (t : CType) (v : Val)
    → Fits t v
    → (b : Bytes) × (pack_field t v ≡ ok b)
      × (length b ≡ width t)
      × ((rest : Bytes) → unpack_field t (b ++ rest) ≡ v)
unfolding pack_field unpack_field replicate
field_packed u32 (num n) h = (
  le 4 n,
  ground arith,
  length-le 4 n,
  λ rest. ap num (ap unle (take-append_whole (le 4 n) rest (length-le 4 n)) ∙ unle-le4 n h),
)
field_packed u64 (num n) h = (
  le 8 n,
  ground arith,
  length-le 8 n,
  λ rest. ap num (ap unle (take-append_whole (le 8 n) rest (length-le 8 n)) ∙ unle-le8 n h),
)
field_packed (chars k) (raw b) h =
    (b, ap ok (whole ∙ append-nil b), h, λ rest. ap raw (take-append_whole b rest h))
  where
    none_missing : k - length b ≡ 0
    none_missing = omega arith

    whole : take k b ++ replicate (k - length b) 0 ≡ b ++ []
    whole =
        ap₂ (λ s t. s ++ t) (ap (take k) (sym (append-nil b)) ∙ take-append_whole b [] h)
          (ap (λ d. replicate d 0) none_missing)
field_packed u32 (raw b) h = absurd h
field_packed u64 (raw b) h = absurd h
field_packed (chars k) (num n) h = absurd h

-- Values that fit are packed to the size of the struct and read back, whatever is behind them.
pub unpack-pack :
    (ts : List CType) (vs : List Val)
    → AllFit ts vs
    → (b : Bytes) × (pack ts vs ≡ ok b)
      × (length b ≡ size ts)
      × ((rest : Bytes) → unpack ts (b ++ rest) ≡ vs)
unfolding pack size unpack
unpack-pack [] [] h = ([], refl, refl, λ rest. refl)
unpack-pack [] (v ∷ vs) h = absurd h
unpack-pack (t ∷ ts) [] h = absurd h
unpack-pack (t ∷ ts) (v ∷ vs) h =
    let (b, packed, wide, read) = field_packed t v h.0 in
    let (more, packed', wide', read') = unpack-pack ts vs h.1 in
    (
      b ++ more,
      rw (packed, packed') refl,
      omega (arith, wide, wide', length-append b more),
      λ rest.
          ap₂ (λ x y. x ∷ y) (ap (unpack_field t) (append_assoc b more rest) ∙ read (more ++ rest))
            (ap (λ s. unpack ts (drop (width t) s)) (append_assoc b more rest)
              ∙ ap (unpack ts) (drop-append_whole b (more ++ rest) wide)
              ∙ read' rest),
    )

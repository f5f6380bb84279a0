-- ===== src/Lvm2/Headers/Fuel.antt =====
-- osbuild/util/lvm2.py: the fuel of the loops over arrays.
use osbuild.Prelude.{
  ℕ, zero, suc, ◌-◌, ◌<◌, ◌≤◌, Option, none, some, List, [], ◌∷◌, length, ltb, ◌≡◌, refl,
  Bool-cases, Option-cases, inl, inr, arith,
}
use osbuild.Lvm2.Struct.{Bytes, take, drop, CType, Val, size, read_struct}
use osbuild.Lvm2.Headers.{read_rows}

length-take-le : (n : ℕ) (s : Bytes) → length (take n s) ≤ length s
unfolding take
length-take-le zero s = omega arith
length-take-le (suc n) [] = omega arith
length-take-le (suc n) (b ∷ s) = omega (arith, length-take-le n s)

length-drop : (n : ℕ) (s : Bytes) → length (drop n s) ≡ length s - n
unfolding drop
length-drop zero s = omega arith
length-drop (suc n) [] = omega arith
length-drop (suc n) (b ∷ s) = omega (arith, length-drop n s)

-- A struct that was read leaves fewer bytes.
read_struct-shorter :
    (ts : List CType) (s : Bytes) {vs : List Val}
    → 0 < size ts
    → (read_struct ts s).0 ≡ some vs
    → length (read_struct ts s).1 < length s
unfolding read_struct
read_struct-shorter ts s filled e = elim (Bool-cases (ltb (length (take (size ts) s)) (size ts))) [
  | inl short ↦ absurd_none (rw short at e)
  | inr enough ↦ ground (arith, length-take-le (size ts) s, length-drop (size ts) s)
]
  where
    absurd_none : {A : Type 0} {vs : List Val} → ◌≡◌ {A = Option (List Val)} none (some vs) → A
    absurd_none h = cc

-- Fuel of more than there are bytes is enough for a loop over an array: more of it changes nothing.
pub read_rows-enough :
    (ts : List CType) (f g : ℕ) (s : Bytes)
    → 0 < size ts
    → length s < f
    → length s < g
    → read_rows ts f s ≡ read_rows ts g s
unfolding read_rows
read_rows-enough ts zero g s filled a b = absurd (omega arith)
read_rows-enough ts (suc f) zero s filled a b = absurd (omega arith)
read_rows-enough ts (suc f) (suc g) s filled a b = elim (Option-cases (read_struct ts s).0) [
  | inl e ↦ rw (e, read_rows) refl
  | inr (vs, e) ↦
      let shorter = read_struct-shorter ts s filled e in
      let same = read_rows-enough ts f g (read_struct ts s).1 filled (omega arith) (omega arith) in
      rw (e, read_rows) (rw same refl)
]

-- ===== src/Lvm2/Headers/Rows.antt =====
-- osbuild/util/lvm2.py: packed structs are read back from the bytes of a header.
use mathlib.Core.List.{append_assoc, append-nil}
use osbuild.Prelude.{
  ℕ, zero, suc, ◌*◌, ◌<◌, true, false, some, List, [], ◌∷◌, ◌++◌, All, length, length-append, ◌≡◌,
  refl, sym, ap, ◌∙◌, ltb, same_number, ok, arith,
}
use osbuild.Lvm2.Struct.{
  Bytes, take, drop, replicate, CType, Val, num, unle, size, unpack, unpack_field, read_struct,
}
use osbuild.Lvm2.Struct.Files.{take-append_whole, drop-append_whole}
use osbuild.Lvm2.Struct.Packed.{AllFit, unpack-pack}
use osbuild.Lvm2.Headers.{
  RawLocN, raw_locn_struct, raw_locn_values, raw_locns_of, read_rows, pack_locns, num_at,
}

ltb_irrefl : (n : ℕ) → ltb n n ≡ false
ltb_irrefl n = ground arith

pub read_struct-append :
    (ts : List CType) (vs : List Val) (b rest : Bytes)
    → length b ≡ size ts
    → ((more : Bytes) → unpack ts (b ++ more) ≡ vs)
    → read_struct ts (b ++ rest) ≡ (some vs, rest)
unfolding read_struct
read_struct-append ts vs b rest wide read =
    rw (take-append_whole b rest wide, drop-append_whole b rest wide, wide)
      (rw (ltb_irrefl (size ts)) (ap (λ v. (some v, rest)) whole))
  where
    whole : unpack ts b ≡ vs
    whole = ap (unpack ts) (sym (append-nil b)) ∙ read []

module _ (ts : List CType) (f : ℕ) (s behind : Bytes) (vs : List Val)
    (read : read_struct ts s ≡ (some vs, behind)) where
  rows_end : same_number (num_at 0 vs) 0 ≡ true → (read_rows ts (suc f) s).0 ≡ []
  unfolding read_rows
  rows_end h = rw (read, read_rows) (rw h refl)

  rows_more :
      same_number (num_at 0 vs) 0 ≡ false
      → (read_rows ts (suc f) s).0 ≡ vs ∷ (read_rows ts f behind).0
  unfolding read_rows
  rows_more h = rw (read, read_rows) (rw h (ap (λ p. vs ∷ (read_rows ts f p.1).0) read))

abbrev zero_row : List Val
zero_row = num 0 ∷ num 0 ∷ num 0 ∷ num 0 ∷ []

-- Where the next row has no offset, the loop ends.
ends_at_zero :
    (f : ℕ) (rest : Bytes) → (read_rows raw_locn_struct (suc f) (replicate 24 0 ++ rest)).0 ≡ []
ends_at_zero f rest =
    let read : read_struct raw_locn_struct (replicate 24 0 ++ rest) ≡ (some zero_row, rest) =
      unfold replicate size unpack unpack_field unle take drop in
      read_struct-append raw_locn_struct zero_row (replicate 24 0) rest refl (λ more. refl) in
    rows_end raw_locn_struct f (replicate 24 0 ++ rest) rest zero_row read refl

nonzero : (n : ℕ) → 0 < n → same_number n 0 ≡ false
nonzero n h = ground arith

-- The fields of a location fit, and it is no end of an array.
abbrev pub IsLocation : RawLocN → Type 0
IsLocation l = AllFit raw_locn_struct (raw_locn_values l) × (0 < l.offset)

size_locn : size raw_locn_struct ≡ 24
unfolding size
size_locn = refl

-- Locations are read back, where zeros are behind them.
pub locns_read :
    (locns : List RawLocN)
    → All IsLocation locns
    → (b : Bytes) × (pack_locns locns ≡ ok b)
      × (length b ≡ 24 * length locns)
      × ((f : ℕ) (rest : Bytes)
          → length locns < f
          → raw_locns_of (read_rows raw_locn_struct f (b ++ (replicate 24 0 ++ rest))).0 ≡ locns)
unfolding pack_locns
locns_read [] h = ([], refl, omega arith, ends)
  where
    ends :
        (f : ℕ) (rest : Bytes)
        → 0 < f
        → raw_locns_of (read_rows raw_locn_struct f (replicate 24 0 ++ rest)).0 ≡ []
    ends zero rest h = absurd (omega arith)
    ends (suc f) rest h = ap raw_locns_of (ends_at_zero f rest)
locns_read (l ∷ locns) h =
    let (b, packed, wide, read) = unpack-pack raw_locn_struct (raw_locn_values l) h.0.0 in
    let (more, packed', wide', read') = locns_read locns h.1 in
    (
      b ++ more,
      rw (packed, packed') refl,
      omega (arith, wide, wide', length-append b more, size_locn),
      go b more wide read read',
    )
  where
    go :
        (b more : Bytes)
        → length b ≡ size raw_locn_struct
        → ((rest : Bytes) → unpack raw_locn_struct (b ++ rest) ≡ raw_locn_values l)
        → ((f : ℕ) (rest : Bytes)
            → length locns < f
            → raw_locns_of (read_rows raw_locn_struct f (more ++ (replicate 24 0 ++ rest))).0
              ≡ locns)
        → (f : ℕ) (rest : Bytes) → suc (length locns) < f
        → raw_locns_of (read_rows raw_locn_struct f ((b ++ more) ++ (replicate 24 0 ++ rest))).0
          ≡ l ∷ locns
    go b more wide read read' zero rest enough = absurd (omega arith)
    go b more wide read read' (suc f) rest enough =
        let behind : Bytes = more ++ (replicate 24 0 ++ rest) in
        ap (λ s. raw_locns_of (read_rows raw_locn_struct (suc f) s).0) (append_assoc b more _)
        ∙ ap raw_locns_of (
            rows_more raw_locn_struct f (b ++ behind) behind (raw_locn_values l)
              (read_struct-append raw_locn_struct (raw_locn_values l) b behind wide read)
              (nonzero l.offset h.0.1))
        ∙ ap (λ ls. l ∷ ls) (read' f rest (omega arith))

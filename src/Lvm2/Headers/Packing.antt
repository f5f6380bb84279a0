-- ===== src/Lvm2/Headers/Packing.antt =====
-- osbuild/util/lvm2.py: the bytes that `MDAHeader.write` writes, and what `MDAHeader.read` makes of them.
use mathlib.Core.List.{append_assoc}
use osbuild.Prelude.{
  ℕ, zero, suc, ◌+◌, ◌-◌, ◌*◌, ◌<◌, ◌≤◌, some, true, ltb, List, [], ◌∷◌, ◌++◌, length,
  length-append, ◌≡◌, refl, ap, ◌∙◌, subst, ok, arith,
}
use osbuild.Lvm2.Struct.{
  Bytes, drop, replicate, CType, u32, u64, chars, Val, num, raw, le, size, pack, pack_field,
  read_struct, write_at,
}
use osbuild.Lvm2.Struct.Files.{drop-append_whole, drop-write_at}
use osbuild.Lvm2.Struct.Packed.{AllFit, unpack-pack, length-le}
use osbuild.Lvm2.Headers.{
  RawLocN, MdaFields, mda_struct, mda_values, raw_locn_struct, raw_locns_of, read_rows, read_mda,
  pack_locns, calc_crc, packed_mda, header_size,
}
use osbuild.Lvm2.Headers.Rows.{read_struct-append}

abbrev behind_checksum : List CType
behind_checksum = chars 16 ∷ u32 ∷ u64 ∷ u64 ∷ []

abbrev pub with_checksum : MdaFields → ℕ → MdaFields
with_checksum fields c = record fields { checksum = c }

size_mda : (size mda_struct ≡ 40) × (size behind_checksum ≡ 36)
unfolding size
size_mda = (refl, refl)

pack-checksum :
    (c : ℕ) (vs : List Val) (tail : Bytes)
    → c < 0x1_0000_0000
    → pack behind_checksum vs ≡ ok tail
    → pack mda_struct (num c ∷ vs) ≡ ok (le 4 c ++ tail)
unfolding pack pack_field
pack-checksum c vs tail h e =
    let small : ltb c 0x1_0000_0000 ≡ true = ground arith in rw (small, e) refl

-- But for the checksum, the bytes of the fields do not depend on it.
pub fields_packed :
    (fields : MdaFields)
    → AllFit mda_struct (mda_values fields)
    → (tail : Bytes) × (length tail ≡ 36)
      × ((c : ℕ)
          → c < 0x1_0000_0000
          → (pack mda_struct (mda_values (with_checksum fields c)) ≡ ok (le 4 c ++ tail))
            × ((rest : Bytes)
                → read_struct mda_struct ((le 4 c ++ tail) ++ rest)
                  ≡ (some (mda_values (with_checksum fields c)), rest)))
fields_packed fields h =
    let (tail, packed, wide, read) = unpack-pack behind_checksum _ h.1 in
    (tail, omega (arith, wide, size_mda.1), each tail packed)
  where
    each :
        (tail : Bytes)
        → pack behind_checksum
            (raw fields.magic ∷ num fields.version ∷ num fields.start ∷ num fields.size ∷ [])
          ≡ ok tail
        → (c : ℕ) → c < 0x1_0000_0000
        → (pack mda_struct (mda_values (with_checksum fields c)) ≡ ok (le 4 c ++ tail))
          × ((rest : Bytes)
              → read_struct mda_struct ((le 4 c ++ tail) ++ rest)
                ≡ (some (mda_values (with_checksum fields c)), rest))
    each tail packed c small =
        let values = mda_values (with_checksum fields c) in
        let whole = pack-checksum c _ tail small packed in
        let (b, packed', wide', read') = unpack-pack mda_struct values (small, h.1) in
        let same : b ≡ le 4 c ++ tail = cc (packed', whole) in
        (
          whole,
          subst (λ x. (rest : Bytes) → read_struct mda_struct (x ++ rest) ≡ (some values, rest))
              same (λ rest. read_struct-append mda_struct values b rest wide' read'),
        )

pub suc_add : (n k : ℕ) → suc n + k ≡ suc (n + k)
suc_add n k = omega arith

length-replicate : (n : ℕ) → length (replicate n 0) ≡ n
unfolding replicate
length-replicate zero = refl
length-replicate (suc n) = ap suc (length-replicate n)

replicate-add : (n k : ℕ) → replicate (n + k) 0 ≡ replicate n 0 ++ replicate k 0
unfolding replicate
replicate-add zero k = ap (λ n. replicate n 0) (omega arith)
replicate-add (suc n) k =
    ap (λ n. replicate n 0) (suc_add n k) ∙ ap (λ s. 0 ∷ s) (replicate-add n k)

-- Parts of a header: a checksum, other fields, locations and zeros.
module _ (x tail locs zeros : Bytes) (four : length x ≡ 4) where
  drop_checksum : drop 4 (((x ++ tail) ++ locs) ++ zeros) ≡ tail ++ (locs ++ zeros)
  drop_checksum =
      ap (drop 4) (append_assoc (x ++ tail) locs zeros ∙ append_assoc x tail (locs ++ zeros))
      ∙ drop-append_whole x (tail ++ (locs ++ zeros)) four

  write_checksum :
      (y : Bytes)
      → length y ≡ 4
      → write_at 0 (y ++ tail) (((x ++ tail) ++ locs) ++ zeros) ≡ y ++ (tail ++ (locs ++ zeros))
  unfolding drop
  write_checksum y four' =
      drop-write_at 0 (y ++ tail) (((x ++ tail) ++ locs) ++ zeros)
        (omega (arith, length-append y tail, four'))
      ∙ ap (λ s. (y ++ tail) ++ drop (length (y ++ tail)) s) (append_assoc (x ++ tail) locs zeros)
      ∙ ap (λ s. (y ++ tail) ++ s)
          (drop-append_whole (x ++ tail) (locs ++ zeros)
            (omega (arith, length-append x tail, length-append y tail, four, four')))
      ∙ append_assoc y tail (locs ++ zeros)

-- `read` of a header, from that of its parts.
pub read_mda-parts :
    (s behind : Bytes) (fields : MdaFields) (locns : List RawLocN)
    → read_struct mda_struct s ≡ (some (mda_values fields), behind)
    → raw_locns_of (read_rows raw_locn_struct (suc (length behind)) behind).0 ≡ locns
    → read_mda s ≡ record { fields = some fields; raw_locns = locns }
unfolding read_mda
read_mda-parts s behind fields locns e e' = rw (e, e') refl

-- A header whose fields and locations are packed as these bytes.
module _ (crc32 : Bytes → ℕ → ℕ) (fields : MdaFields) (locns : List RawLocN) (tail locs : Bytes)
    (wide : length tail ≡ 36) (wide' : length locs ≡ 24 * length locns)
    (room : 40 + 24 * length locns + 24 ≤ header_size) where
  unfoldable pub zeros : Bytes
  zeros = replicate (header_size - length ((le 4 fields.checksum ++ tail) ++ locs)) 0

  unfoldable pub body : Bytes
  unfolding zeros
  body = tail ++ (locs ++ zeros)

  pub length-body : length body ≡ 508
  unfolding body zeros
  length-body =
      let n = header_size - length ((le 4 fields.checksum ++ tail) ++ locs) in
      omega (
        arith,
        wide,
        wide',
        length-append tail (locs ++ replicate n 0),
        length-append locs (replicate n 0),
        length-replicate n,
        length-append (le 4 fields.checksum ++ tail) locs,
        length-append (le 4 fields.checksum) tail,
        length-le 4 fields.checksum,
      )

  pub zeros_split : (k : ℕ) × (zeros ≡ replicate 24 0 ++ replicate k 0)
  unfolding zeros
  zeros_split =
      let n = header_size - length ((le 4 fields.checksum ++ tail) ++ locs) in
      let enough : n ≡ 24 + (n - 24) = omega (
        arith,
        wide,
        wide',
        length-append (le 4 fields.checksum ++ tail) locs,
        length-append (le 4 fields.checksum) tail,
        length-le 4 fields.checksum,
      ) in
      (n - 24, ap (λ m. replicate m 0) enough ∙ replicate-add 24 (n - 24))

  pub packed_mda-body :
      pack mda_struct (mda_values fields) ≡ ok (le 4 fields.checksum ++ tail)
      → pack_locns locns ≡ ok locs
      → pack mda_struct (mda_values (with_checksum fields (calc_crc crc32 body)))
        ≡ ok (le 4 (calc_crc crc32 body) ++ tail)
      → packed_mda crc32 fields locns
        ≡ ok (le 4 (calc_crc crc32 body) ++ body, with_checksum fields (calc_crc crc32 body))
  unfolding packed_mda body zeros
  packed_mda-body e e' e'' =
      rw
        (
          e,
          e',
          drop_checksum (le 4 fields.checksum) tail locs zeros (length-le 4 fields.checksum),
          e'',
          write_checksum (le 4 fields.checksum) tail locs zeros (length-le 4 fields.checksum)
              (le 4 (calc_crc crc32 body)) (length-le 4 _),
        )
        refl

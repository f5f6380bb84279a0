-- ===== src/Lvm2/Headers/Flushed.antt =====
-- osbuild/util/lvm2.py: metadata that `write_metadata` writes is what the file has afterwards.
use mathlib.Core.List.{append_assoc}
use osbuild.Prelude.{
  ℕ, zero, suc, Bool, ◌+◌, ◌-◌, ◌*◌, ◌<◌, ◌≤◌, some, List, [], ◌∷◌, ◌++◌, All, length,
  length-append, ◌≡◌, refl, sym, ap, ◌∙◌, Result, ok, arith,
}
use osbuild.Lvm2.Text.{Text}
use osbuild.Lvm2.Struct.{Bytes, take, drop, replicate, le, read_struct, write_at, read_at}
use osbuild.Lvm2.Struct.Files.{
  take-append_whole, drop-append_whole, take-append_more, drop-nil, drop-write_at,
  drop-write_at_behind,
}
use osbuild.Lvm2.Struct.Packed.{AllFit, length-le}
use osbuild.Lvm2.Volumes.{Codec, Volumes, encode, decode}
use osbuild.Lvm2.Headers.{
  RawLocN, MdaFields, MdaHeader, mda_struct, mda_values, raw_locn_struct, raw_locns_of, read_rows,
  read_mda, calc_crc, packed_mda, header_size, locn_bytes, read_metadata, write_metadata,
}
use osbuild.Lvm2.Headers.Rows.{IsLocation, locns_read}
use osbuild.Lvm2.Headers.Packing.{
  with_checksum, fields_packed, read_mda-parts, zeros, body, length-body, zeros_split,
  packed_mda-body, suc_add,
}

read_blob :
    (x tail locs zs : Bytes) (fields : MdaFields) (locns : List RawLocN) (k : ℕ)
    → ((rest : Bytes)
        → read_struct mda_struct ((x ++ tail) ++ rest) ≡ (some (mda_values fields), rest))
    → ((f : ℕ) (rest : Bytes)
        → length locns < f
        → raw_locns_of (read_rows raw_locn_struct f (locs ++ (replicate 24 0 ++ rest))).0 ≡ locns)
    → length locs ≡ 24 * length locns
    → zs ≡ replicate 24 0 ++ replicate k 0
    → (rest : Bytes)
    → read_mda ((x ++ (tail ++ (locs ++ zs))) ++ rest)
      ≡ record { fields = some fields; raw_locns = locns }
read_blob x tail locs zs fields locns k fields_read rows_read wide e rest =
    let behind : Bytes = locs ++ (replicate 24 0 ++ (replicate k 0 ++ rest)) in
    let parts : (x ++ (tail ++ (locs ++ zs))) ++ rest ≡ (x ++ tail) ++ behind =
      rw e (simp append_assoc) in
    ap read_mda parts
    ∙ read_mda-parts ((x ++ tail) ++ behind) behind fields locns (fields_read behind) (
        rows_read (suc (length behind)) (replicate k 0 ++ rest)
          (omega (arith, wide, length-append locs (replicate 24 0 ++ (replicate k 0 ++ rest)))))

module _ (crc32 : Bytes → ℕ → ℕ) (is_u32 : (b : Bytes) → calc_crc crc32 b < 0x1_0000_0000) where
  -- What `write` makes of fields and locations that fit: after the checksum, bytes whose checksum it is;
  -- and these are read as the same header.
  packed_mda-read :
      (fields : MdaFields) (locns : List RawLocN)
      → AllFit mda_struct (mda_values fields)
      → All IsLocation locns
      → 40 + 24 * length locns + 24 ≤ header_size
      → (b : Bytes) × (length b ≡ 508)
        × (packed_mda crc32 fields locns
            ≡ ok (le 4 (calc_crc crc32 b) ++ b, with_checksum fields (calc_crc crc32 b)))
        × ((rest : Bytes)
            → read_mda ((le 4 (calc_crc crc32 b) ++ b) ++ rest) ≡ record {
              fields = some (with_checksum fields (calc_crc crc32 b));
              raw_locns = locns;
            })
  packed_mda-read fields locns fit located room =
      let (tail, wide, each) = fields_packed fields fit in
      let (locs, packed, wide', read) = locns_read locns located in
      let b = body crc32 fields locns tail locs wide wide' room in
      let c = calc_crc crc32 b in
      let split = zeros_split crc32 fields locns tail locs wide wide' room in
      let (written, _) = each fields.checksum fit.0 in
      let (written', fields_read) = each c (is_u32 b) in
      (
        b,
        length-body crc32 fields locns tail locs wide wide' room,
        packed_mda-body crc32 fields locns tail locs wide wide' room written packed written',
        unfold body in
            read_blob (le 4 c) tail locs (zeros crc32 fields locns tail locs wide wide' room)
              (with_checksum fields c) locns split.0 fields_read read wide' split.1,
      )

drop_add : (p q : ℕ) (xs : Bytes) → drop (p + q) xs ≡ drop q (drop p xs)
unfolding drop
drop_add zero q xs = ap (λ n. drop n xs) (omega arith)
drop_add (suc p) q [] = drop-nil (suc p + q) ∙ sym (drop-nil q)
drop_add (suc p) q (x ∷ xs) = ap (λ n. drop n (x ∷ xs)) (suc_add p q) ∙ drop_add p q xs

-- A block in a file, with a part of it behind its first four bytes.
module _ (start : ℕ) (x b f : Bytes) (four : length x ≡ 4) (rest_wide : length b ≡ 508) where
  length-block : length (x ++ b) ≡ 512
  length-block = omega (arith, four, rest_wide, length-append x b)

  drop-block :
      drop start (write_at start (x ++ b) f) ≡ (x ++ b) ++ drop (length (x ++ b)) (drop start f)
  drop-block = drop-write_at start (x ++ b) f (omega (arith, length-block))

  read_block :
      (n : ℕ)
      → 512 ≤ n
      → (rest : Bytes) × (read_at start n (write_at start (x ++ b) f) ≡ (x ++ b) ++ rest)
  unfolding read_at
  read_block n h =
      let behind = drop (length (x ++ b)) (drop start f) in
      (
        take (n - length (x ++ b)) behind,
        ap (take n) drop-block ∙ take-append_more n (x ++ b) behind (omega (arith, length-block)),
      )

  read_body : read_at (start + 4) 508 (write_at start (x ++ b) f) ≡ b
  unfolding read_at
  read_body =
      ap (take 508) (
        drop_add start 4 _
        ∙ ap (drop 4) (drop-block ∙ append_assoc x b _)
        ∙ drop-append_whole x _ four)
      ∙ take-append_whole b _ rest_wide

-- The header that `write_metadata` leaves, with the checksum of the bytes behind it in the file.
abbrev pub flushed_header :
    (Bytes → ℕ → ℕ) → MdaFields → RawLocN → List RawLocN → Bytes → Bytes → MdaHeader
flushed_header crc32 fields loc others blob file = record {
  fields = some (with_checksum fields (calc_crc crc32 (read_at (fields.start + 4) 508 file)));
  raw_locns = record loc { size = length blob; checksum = calc_crc crc32 blob } ∷ others;
}

-- The metadata is behind the header, and reads as it was written.
locn_bytes-flushed :
    (start : ℕ) (loc : RawLocN) (block blob file : Bytes)
    → loc.size ≡ length blob
    → 0 < length blob
    → length block ≤ loc.offset
    → locn_bytes (write_at start block (write_at (start + loc.offset) blob file)) start loc ≡ blob
unfolding read_at
locn_bytes-flushed start loc block blob file e filled apart =
    let place = start + loc.offset in
    ap (take loc.size) (
      drop-write_at_behind place start block (write_at place blob file) (omega arith)
      ∙ drop-write_at place blob file filled)
    ∙ take-append_whole blob _ (sym e)

-- What `write_metadata` has to come to.
IsFlushed :
    (Bytes → ℕ → ℕ)
    → Codec
    → (Text → Bool)
    → MdaFields
    → RawLocN
    → List RawLocN
    → Bytes
    → Bytes × Result MdaHeader
    → Type 0
IsFlushed crc32 utf8 is_float fields loc others blob (file', result) =
    let h' = flushed_header crc32 fields loc others blob file' in
    (result ≡ ok h')
    × ((n : ℕ) → header_size ≤ n → read_mda (read_at fields.start n file') ≡ h')
    × (read_metadata utf8 is_float h' file' ≡ decode utf8 is_float blob)

module _ (crc32 : Bytes → ℕ → ℕ) (utf8 : Codec) (is_float : Text → Bool) (fields : MdaFields)
    (loc : RawLocN) (others : List RawLocN) (blob file : Bytes) (b : Bytes) where
  abbrev new_locns : List RawLocN
  new_locns = record loc { size = length blob; checksum = calc_crc crc32 blob } ∷ others

  abbrev blob_file : Bytes
  blob_file = write_at (fields.start + loc.offset) blob file

  abbrev block : Bytes
  block = le 4 (calc_crc crc32 b) ++ b

  abbrev new_header : MdaHeader
  new_header = record {
    fields = some (with_checksum fields (calc_crc crc32 b));
    raw_locns = new_locns;
  }

  blocks-IsFlushed :
      length b ≡ 508
      → 0 < length blob
      → header_size ≤ loc.offset
      → ((rest : Bytes) → read_mda (block ++ rest) ≡ new_header)
      → IsFlushed crc32 utf8 is_float fields loc others blob
          (write_at fields.start block blob_file, ok new_header)
  unfolding IsFlushed read_metadata
  blocks-IsFlushed wide filled apart read =
      let four = length-le 4 (calc_crc crc32 b) in
      let same : new_header
          ≡ flushed_header crc32 fields loc others blob (write_at fields.start block blob_file) =
        ap
          (λ x. record {
            fields = some (with_checksum fields (calc_crc crc32 x));
            raw_locns = new_locns;
          })
          (sym (read_body fields.start (le 4 (calc_crc crc32 b)) b blob_file four wide)) in
      (
        ap ok same,
        λ n h.
            let (rest, found) =
              read_block fields.start (le 4 (calc_crc crc32 b)) b blob_file four wide n h in
            ap read_mda found ∙ read rest ∙ same,
        ap (decode utf8 is_float) (
            locn_bytes-flushed fields.start
              (record loc { size = length blob; checksum = calc_crc crc32 blob }) block blob file
              refl filled
              (omega (
                arith,
                length-block fields.start (le 4 (calc_crc crc32 b)) b blob_file four wide,
              ))),
      )

-- `write_metadata` of a header whose fields fit and that has room for its locations, for metadata whose
-- place is behind the header, raises nothing. The header that it leaves has the size and the checksum of
-- the metadata, and its own checksum is that of its other bytes in the file. Any read of the file from
-- the start of the header, of 512 bytes or more, gives that header, and it reads the metadata
-- from the file as `decode` reads what was encoded.
pub write_metadata-read :
    (crc32 : Bytes → ℕ → ℕ) (utf8 : Codec) (is_float : Text → Bool) (fields : MdaFields)
    (loc : RawLocN) (others : List RawLocN) (md : Volumes) (file : Bytes) {blob : Bytes}
    → ((b : Bytes) → calc_crc crc32 b < 0x1_0000_0000)
    → encode utf8 md ≡ ok blob
    → 0 < length blob
    → length blob < 0x1_0000_0000_0000_0000
    → AllFit mda_struct (mda_values fields)
    → All IsLocation (loc ∷ others)
    → 40 + 24 * length (loc ∷ others) + 24 ≤ header_size
    → header_size ≤ loc.offset
    → let h : MdaHeader = record { fields = some fields; raw_locns = loc ∷ others } in
      let (file', result) = write_metadata crc32 utf8 h md file in
      let h' = flushed_header crc32 fields loc others blob file' in
      (result ≡ ok h')
      × ((n : ℕ) → header_size ≤ n → read_mda (read_at fields.start n file') ≡ h')
      × (read_metadata utf8 is_float h' file' ≡ decode utf8 is_float blob)
unfolding IsFlushed write_metadata
write_metadata-read crc32 utf8 is_float fields loc others md file {blob} is_u32 e filled short fit
      located room apart =
    let (offset, (_, (_, (flags, _)))) = located.0.0 in
    let (b, wide, packed, read) =
      packed_mda-read crc32 is_u32 fields
        (new_locns crc32 utf8 is_float fields loc others blob file []) fit
        (((offset, (short, (is_u32 blob, (flags, tt)))), located.0.1), located.1) room in
    let done =
      blocks-IsFlushed crc32 utf8 is_float fields loc others blob file b wide filled apart read in
    rw (e, packed) done

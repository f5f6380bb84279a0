-- ===== src/Lvm2/Headers.antt =====
-- osbuild/util/lvm2.py: the headers on a disk and the class `Disk`. A file is its bytes; its position is
-- an argument or a result, since every operation but a loop over an array seeks first. `crc32` is a
-- parameter.
pub mod Rows
pub mod Fuel
pub mod Packing
pub mod Flushed
use Prim.Native.Nat.{bit_xor}
use osbuild.Prelude.{
  ℕ, zero, suc, ◌+◌, ◌-◌, ◌*◌, Bool, true, false, Option, none, some, List, [], ◌∷◌, ◌++◌, length,
  if◌then◌else◌, same_number, Result, ok, err, ◌>>=◌, index_error, type_error, runtime_error,
  struct_error, ltb,
}
use osbuild.Lvm2.Text.{Text}
use osbuild.Lvm2.Struct.{
  Bytes, take, drop, replicate, CType, u32, u64, chars, Val, num, raw, size, pack, unpack,
  read_struct, write_at, read_at,
}
use osbuild.Lvm2.Volumes.{Codec, Volumes, decode, encode}

abbrev pub mda_struct : List CType
mda_struct = u32 ∷ chars 16 ∷ u32 ∷ u64 ∷ u64 ∷ []

abbrev pub raw_locn_struct : List CType
raw_locn_struct = u64 ∷ u64 ∷ u32 ∷ u32 ∷ []

abbrev pub disk_locn_struct : List CType
disk_locn_struct = u64 ∷ u64 ∷ []

abbrev pub label_struct : List CType
label_struct = chars 8 ∷ u64 ∷ u32 ∷ u32 ∷ chars 8 ∷ []

abbrev pub pv_struct : List CType
pv_struct = chars 32 ∷ u64 ∷ []

abbrev pub header_size : ℕ
header_size = 512

-- The n-th field of a struct.
abbrev pub num_at : ℕ → List Val → ℕ
num_at n [] = 0
num_at zero (num k ∷ vs) = k
num_at zero (raw b ∷ vs) = 0
num_at (suc n) (v ∷ vs) = num_at n vs

abbrev pub raw_at : ℕ → List Val → Bytes
raw_at n [] = []
raw_at zero (num k ∷ vs) = []
raw_at zero (raw b ∷ vs) = b
raw_at (suc n) (v ∷ vs) = raw_at n vs

pub record RawLocN : Type 0 where
  pub offset : ℕ
  pub size : ℕ
  pub checksum : ℕ
  pub flags : ℕ

pub record DiskLocN : Type 0 where
  pub offset : ℕ
  pub size : ℕ

pub record MdaFields : Type 0 where
  pub checksum : ℕ
  pub magic : Bytes
  pub version : ℕ
  pub start : ℕ
  pub size : ℕ

-- Without fields, where the file was too short for them.
pub record MdaHeader : Type 0 where
  pub fields : Option MdaFields
  pub raw_locns : List RawLocN

abbrev pub raw_locn_of : List Val → RawLocN
raw_locn_of vs = record {
  offset = num_at 0 vs;
  size = num_at 1 vs;
  checksum = num_at 2 vs;
  flags = num_at 3 vs;
}

abbrev pub disk_locn_of : List Val → DiskLocN
disk_locn_of vs = record { offset = num_at 0 vs; size = num_at 1 vs }

abbrev pub mda_of : List Val → MdaFields
mda_of vs = record {
  checksum = num_at 0 vs;
  magic = raw_at 1 vs;
  version = num_at 2 vs;
  start = num_at 3 vs;
  size = num_at 4 vs;
}

abbrev pub raw_locn_values : RawLocN → List Val
raw_locn_values l = num l.offset ∷ num l.size ∷ num l.checksum ∷ num l.flags ∷ []

abbrev pub mda_values : MdaFields → List Val
mda_values h = num h.checksum ∷ raw h.magic ∷ num h.version ∷ num h.start ∷ num h.size ∷ []

abbrev pub map_of : {A B : Type 0} → (A → B) → Option A → Option B
map_of f none = none
map_of f (some a) = some (f a)

-- The loop of both `read_array`: the rows up to one whose offset is zero, and what is behind. Fuel of
-- one more than there are bytes is enough.
unfoldable pub read_rows : List CType → ℕ → Bytes → List (List Val) × Bytes
read_rows ts zero s = ([], s)
read_rows ts (suc f) s = elim (read_struct ts s).0 [
  | none ↦ ([], (read_struct ts s).1)
  | some vs ↦
      let further = read_rows ts f (read_struct ts s).1 in
      if same_number (num_at 0 vs) 0
      then ([], (read_struct ts s).1)
      else (vs ∷ further.0, further.1)
]

abbrev pub raw_locns_of : List (List Val) → List RawLocN
raw_locns_of [] = []
raw_locns_of (vs ∷ rows) = raw_locn_of vs ∷ raw_locns_of rows

abbrev pub disk_locns_of : List (List Val) → List DiskLocN
disk_locns_of [] = []
disk_locns_of (vs ∷ rows) = disk_locn_of vs ∷ disk_locns_of rows

-- `MDAHeader.read` of a file that holds these bytes.
unfoldable pub read_mda : Bytes → MdaHeader
unfolding read_rows
read_mda s =
    let (fields, behind) = read_struct mda_struct s in
    record {
      fields = map_of mda_of fields;
      raw_locns = raw_locns_of (read_rows raw_locn_struct (suc (length behind)) behind).0;
    }

abbrev pub committed : List RawLocN → Result RawLocN
committed [] = err index_error
committed (loc ∷ rest) = ok loc

abbrev pub needed : Option MdaFields → Result MdaFields
needed none = err type_error
needed (some h) = ok h

abbrev pub may_end : {A : Type 0} → Result (Option (Result A)) → Option (Result A)
may_end (err e) = some (err e)
may_end (ok r) = r

unfoldable pub pack_locns : List RawLocN → Result Bytes
pack_locns [] = ok []
pack_locns (l ∷ rest) =
    pack raw_locn_struct (raw_locn_values l) >>= λ b. pack_locns rest >>= λ more. ok (b ++ more)

abbrev pub locn_bytes : Bytes → ℕ → RawLocN → Bytes
locn_bytes file start loc = read_at (start + loc.offset) loc.size file

module _ (utf8 : Codec) (is_float : Text → Bool) where
  -- `MDAHeader.read_metadata`
  unfoldable pub read_metadata : MdaHeader → Bytes → Option (Result Volumes)
  read_metadata h file = may_end (do
    loc ← committed h.raw_locns
    fields ← needed h.fields
    ok (decode utf8 is_float (locn_bytes file fields.start loc)))

module _ (crc32 : Bytes → ℕ → ℕ) where
  unfoldable pub calc_crc : Bytes → ℕ
  calc_crc buf = bit_xor (crc32 buf (bit_xor 0xf597a6cf 0xffff_ffff)) 0xffff_ffff

  abbrev pub padded : Bytes → Bytes → Bytes
  padded d locs = (d ++ locs) ++ replicate (header_size - length (d ++ locs)) 0

  -- The bytes that `MDAHeader.write` makes of a header, and the header with its new checksum.
  unfoldable pub packed_mda : MdaFields → List RawLocN → Result (Bytes × MdaFields)
  unfolding calc_crc pack_locns
  packed_mda fields locns = do
    d ← pack mda_struct (mda_values fields)
    locs ← pack_locns locns
    let written = padded d locs
    let fields' = record fields { checksum = calc_crc (drop 4 written) }
    d' ← pack mda_struct (mda_values fields')
    ok (write_at 0 d' written, fields')

  abbrev pub write_packed :
      Bytes → Result (Bytes × MdaFields) → List RawLocN → Bytes × Result MdaHeader
  write_packed file (err e) locns = (file, err e)
  write_packed file (ok (b, fields)) locns =
      (write_at fields.start b file, ok (record { fields = some fields; raw_locns = locns }))

  abbrev pub write_at_locn :
      Bytes → List RawLocN → Result MdaFields → Bytes → Bytes × Result MdaHeader
  write_at_locn blob [] fields file = (file, err index_error)
  write_at_locn blob (loc ∷ others) (err e) file = (file, err e)
  write_at_locn blob (loc ∷ others) (ok fields) file =
      let locns = record loc { size = length blob; checksum = calc_crc blob } ∷ others in
      write_packed (write_at (fields.start + loc.offset) blob file) (packed_mda fields locns) locns

  abbrev pub write_encoded : MdaHeader → Result Bytes → Bytes → Bytes × Result MdaHeader
  write_encoded h (err e) file = (file, err e)
  write_encoded h (ok blob) file = write_at_locn blob h.raw_locns (needed h.fields) file

  -- `MDAHeader.write_metadata`: the file, also where the call raises, and the header.
  unfoldable pub write_metadata : Codec → MdaHeader → Volumes → Bytes → Bytes × Result MdaHeader
  write_metadata utf8 h md file = write_encoded h (encode utf8 md) file

-- ===== src/Tests/Disks.antt =====
-- Runs of osbuild/util/lvm2.py: the metadata of a volume group, written, read, and renamed on a disk.
use osbuild.Prelude.{
  ℕ, ◌≤◌, ◌<◌, Bool, true, false, not, ◌&&◌, none, some, String, [], ◌∷◌, All, length, ◌≡◌, refl,
  Result, ok, err, key_error, arith,
}
use Prim.Native.Char.{code}
use osbuild.Prelude.Int.{pos, negsuc}
use osbuild.Lvm2.Text.{Text, is_space, digits, str_ℤ}
use osbuild.Lvm2.Text.Parts.{is_special, IsWord}
use osbuild.Lvm2.Metadata.{
  Value, int, text, array, section, nil, cons, Entries, end, entry, put, decode_data,
}
use osbuild.Lvm2.Encode.{encode_data}
use osbuild.Lvm2.Encode.Tokens.{IsReadable, AreReadable}
use osbuild.Lvm2.Struct.{Bytes, replicate, read_at}
use osbuild.Lvm2.Struct.Packed.{AllFit}
use osbuild.Lvm2.Volumes.{Codec, Volumes, encode, decode, rename_vg}
use osbuild.Lvm2.Volumes.Renamed.{volumes, rename_vg-rename_vg}
use osbuild.Lvm2.Headers.{
  RawLocN, MdaFields, MdaHeader, mda_struct, mda_values, calc_crc, header_size, read_mda,
  read_metadata, write_metadata,
}
use osbuild.Lvm2.Headers.Rows.{IsLocation}
use osbuild.Lvm2.Headers.Flushed.{flushed_header, write_metadata-read}
use osbuild.Lvm2.Disk.{LabelHeader, PvHeader, Disk, rename, flush_metadata}
use osbuild.Lvm2.Disk.Renaming.{one_area, flush_metadata-rename}
use osbuild.Lvm2.RoundTrip.{first_key, decode_data-encode_data}

abbrev codes : String → Text
codes String.[] = []
codes (String.◌∷◌ c s) = code c ∷ codes s

-- vg { extents = -2, flags = [1, "RW X"] }, creation_host = "a host"
abbrev group : Value
group = section (
    entry (codes "extents") (int (negsuc 1))
      (entry (codes "flags") (array (cons (int (pos 1)) (cons (text (codes "RW X")) nil))) end))

abbrev others : Entries
others = entry (codes "creation_host") (text (codes "a host")) end

abbrev never : Text → Bool
never s = false

is_word : Text → Bool
is_word [] = false
is_word (c ∷ []) = not (is_special c)
is_word (c ∷ d ∷ s) = not (is_special c) && is_word (d ∷ s)

is_word-IsWord : (s : Text) → is_word s ≡ true → IsWord s
unfolding is_word
is_word-IsWord [] h = cc
is_word-IsWord (c ∷ []) h = (ground arith, tt)
is_word-IsWord (c ∷ d ∷ s) h = (ground arith, is_word-IsWord (d ∷ s) (ground arith))

word : (s : String) → is_word (codes s) ≡ true → IsWord (codes s)
word s = is_word-IsWord (codes s)

group-IsReadable : IsReadable group
unfolding is_word is_special is_space
group-IsReadable = (
  word "extents" refl,
  refl,
  tt,
  (refl, tt),
  (
    word "flags" refl,
    refl,
    (tt, ((codes "RW" ∷ codes "X" ∷ [], (word "RW" refl, (word "X" refl, tt)), refl), tt)),
    tt,
    tt,
  ),
)

others-AreReadable : AreReadable others
unfolding is_word is_special is_space
others-AreReadable = (
  word "creation_host" refl,
  refl,
  (codes "a" ∷ codes "host" ∷ [], (word "a" refl, (word "host" refl, tt)), refl),
  tt,
  tt,
)

decode_data-encode_data_example :
    (raw : Text) × (encode_data (entry (codes "vg") group others) ≡ ok raw)
    × (decode_data never raw
        ≡ some (ok (first_key (entry (codes "vg") group others), entry (codes "vg") group others)))
unfolding is_word is_special is_space
decode_data-encode_data_example =
    decode_data-encode_data never (entry (codes "vg") group others)
      (word "vg" refl, refl, group-IsReadable, (refl, tt), others-AreReadable)

abbrev codes_of : Result Bytes → Bytes
codes_of (err e) = []
codes_of (ok b) = b

abbrev plain : Codec
plain = record { encode = λ s. s; decode = some }

abbrev no_crc : Bytes → ℕ → ℕ
no_crc b start = 0

no_crc_u32 : (b : Bytes) → calc_crc no_crc b < 0x1_0000_0000
unfolding calc_crc
no_crc_u32 b = omega arith

abbrev fields : MdaFields
fields = record {
  checksum = 0;
  magic = replicate 16 0;
  version = 1;
  start = 4096;
  size = 1_044_480;
}

abbrev location : RawLocN
location = record { offset = 512; size = 100; checksum = 0; flags = 0 }

fields_fit : AllFit mda_struct (mda_values fields)
unfolding replicate
fields_fit = (omega arith, (refl, (omega arith, (omega arith, (omega arith, tt)))))

locations : All IsLocation (location ∷ [])
locations = (((omega arith, (omega arith, (omega arith, (omega arith, tt)))), omega arith), tt)

abbrev renamed_vg : Volumes
renamed_vg = record { vg_name = some (codes "vg"); content = entry (codes "root") group others }

abbrev blob : Bytes
blob = codes_of (encode plain renamed_vg)

blob_written : encode plain renamed_vg ≡ ok blob
unfolding encode encode_data digits str_ℤ
blob_written = refl

blob-length : (0 < length blob) × (length blob < 0x1_0000_0000_0000_0000)
unfolding encode encode_data digits str_ℤ
blob-length = (omega arith, omega arith)

abbrev header : MdaHeader
header = record { fields = some fields; raw_locns = location ∷ [] }

abbrev empty_disk : Bytes
empty_disk = []

write_metadata-read_example :
    let (file', result) = write_metadata no_crc plain header renamed_vg empty_disk in
    let h' = flushed_header no_crc fields location [] blob file' in
    (result ≡ ok h')
    × ((n : ℕ) → header_size ≤ n → read_mda (read_at fields.start n file') ≡ h')
    × (read_metadata plain never h' file' ≡ decode plain never blob)
write_metadata-read_example =
    write_metadata-read no_crc plain never fields location [] renamed_vg empty_disk no_crc_u32
      blob_written blob-length.0 blob-length.1 fields_fit locations (omega arith) (omega arith)

abbrev label : LabelHeader
label = record { id = codes "LABELONE"; sector = 1; crc = 0; offset = 32; kind = codes "LVM2 001" }

abbrev pv : PvHeader
pv = record { fields = none; data_areas = []; meta_areas = [] }

abbrev before : Disk
before = one_area empty_disk label pv header (volumes (codes "vg") group others)

abbrev after : Disk
after = one_area empty_disk label pv header renamed_vg

after_run : rename (codes "root") before ≡ ok after
unfolding rename rename_vg put
after_run = refl

flush_metadata-rename_example :
    let (d', raised) = flush_metadata no_crc plain after in
    (raised ≡ none)
    × ((n : ℕ)
        → header_size ≤ n
        → let h = read_mda (read_at fields.start n d'.file) in
          (d'.ma_headers ≡ h ∷ [])
          × (read_metadata plain never h d'.file ≡ some (ok (volumes (codes "root") group others))))
unfolding is_word is_special is_space
flush_metadata-rename_example =
    flush_metadata-rename no_crc plain never fields location [] empty_disk label pv (codes "vg")
      (codes "root") group others no_crc_u32 (λ s. refl) fields_fit locations (omega arith)
      (omega arith) (refl, tt) (refl, tt) (word "root" refl) refl group-IsReadable
      others-AreReadable after_run blob_written blob-length.0 blob-length.1

renamed_run : rename_vg (codes "root") (volumes (codes "vg") group others) ≡ ok renamed_vg
unfolding rename_vg put
renamed_run = refl

rename_vg-rename_vg_example : rename_vg (codes "swap") renamed_vg ≡ err key_error
rename_vg-rename_vg_example =
    rename_vg-rename_vg (codes "vg") (codes "root") group others (refl, tt) (refl, tt)
      (codes "swap") refl renamed_run

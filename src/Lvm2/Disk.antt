-- ===== src/Lvm2/Disk.antt =====
-- osbuild/util/lvm2.py: `LabelHeader`, `PVHeader` and `Disk`. A disk is its file and what was read of it.
pub mod Renaming
use osbuild.Prelude.{
  ℕ, zero, suc, ◌+◌, ◌*◌, Bool, true, false, Option, none, some, List, [], ◌∷◌, length,
  if◌then◌else◌, ltb, Error, Result, ok, err, ◌>>=◌, runtime_error, struct_error,
}
use osbuild.Lvm2.Text.{Text}
use osbuild.Lvm2.Metadata.{same_text, put, text, int}
use osbuild.Prelude.Int.{pos}
use osbuild.Lvm2.Struct.{Val, Bytes, take, drop, size, unpack, read_struct, read_at}
use osbuild.Lvm2.Volumes.{Codec, Volumes, rename_vg, set_description}
use osbuild.Lvm2.Headers.{
  DiskLocN, MdaHeader, label_struct, pv_struct, disk_locn_struct, num_at, raw_at, read_rows,
  disk_locns_of, read_mda, read_metadata, write_metadata,
}

pub record LabelHeader : Type 0 where
  pub id : Bytes
  pub sector : ℕ
  pub crc : ℕ
  pub offset : ℕ
  pub kind : Bytes

-- Without fields, where the file was too short for them.
pub record PvFields : Type 0 where
  pub uuid : Bytes
  pub disk_size : ℕ

pub record PvHeader : Type 0 where
  pub fields : Option PvFields
  pub data_areas : List DiskLocN
  pub meta_areas : List DiskLocN

pub record Disk : Type 0 where
  pub file : Bytes
  pub lbl_hdr : LabelHeader
  pub pv_hdr : PvHeader
  pub ma_headers : List MdaHeader
  pub metadata : Volumes

abbrev pub label_id : Bytes
label_id = b'L' ∷ b'A' ∷ b'B' ∷ b'E' ∷ b'L' ∷ b'O' ∷ b'N' ∷ b'E' ∷ []

abbrev pub sector_size : ℕ
sector_size = 512

abbrev unpack_label : Bytes → Result LabelHeader
unpack_label s =
    let vs = unpack label_struct s in
    if ltb (length s) (size label_struct)
    then err struct_error
    else ok (record {
      id = raw_at 0 vs;
      sector = num_at 1 vs;
      crc = num_at 2 vs;
      offset = num_at 3 vs;
      kind = raw_at 4 vs;
    })

abbrev some_label : Result LabelHeader → Result (Option LabelHeader)
some_label (err e) = err e
some_label (ok lbl) = ok (some lbl)

-- The sectors that are left, from a position on.
unfoldable pub scan : ℕ → ℕ → Bytes → Result (Option LabelHeader)
unfolding size
scan zero p file = ok none
scan (suc n) p file =
    let sector = read_at p sector_size file in
    let later = scan n (p + sector_size) file in
    if same_text (take 8 sector) label_id then some_label (unpack_label sector) else later

-- `LabelHeader.search`
unfoldable pub search_label : Bytes → Result (Option LabelHeader)
unfolding scan
search_label file = scan 4 0 file

abbrev pv_fields_of : Option (List Val) → Option PvFields
pv_fields_of none = none
pv_fields_of (some vs) = some (record { uuid = raw_at 0 vs; disk_size = num_at 1 vs })

abbrev rows : Bytes → List (List Val) × Bytes
rows s = read_rows disk_locn_struct (suc (length s)) s

-- `PVHeader.read`
unfoldable pub read_pv : Bytes → PvHeader
read_pv s =
    let (fields, behind) = read_struct pv_struct s in
    let (data_areas, behind_data) = rows behind in
    record {
      fields = pv_fields_of fields;
      data_areas = disk_locns_of data_areas;
      meta_areas = disk_locns_of (rows behind_data).0;
    }

-- `LabelHeader.read_pv_header`
unfoldable pub read_pv_header : LabelHeader → Bytes → PvHeader
unfolding read_pv
read_pv_header lbl file = read_pv (drop (lbl.sector * sector_size + lbl.offset) file)

unfoldable pub read_headers : List DiskLocN → Bytes → List MdaHeader
read_headers [] file = []
read_headers (ma ∷ rest) file = read_mda (read_at ma.offset ma.size file) ∷ read_headers rest file

module _ (utf8 : Codec) (is_float : Text → Bool) where
  abbrev with_metadata :
      Bytes
      → LabelHeader
      → PvHeader
      → List MdaHeader
      → Option (Result Volumes)
      → Option (Result Disk)
  with_metadata file lbl pv headers none = none
  with_metadata file lbl pv headers (some (err e)) = some (err e)
  with_metadata file lbl pv headers (some (ok md)) =
      some (
        ok
          (record { file = file; lbl_hdr = lbl; pv_hdr = pv; ma_headers = headers; metadata = md }))

  abbrev with_headers : Bytes → LabelHeader → PvHeader → List MdaHeader → Option (Result Disk)
  with_headers file lbl pv [] = some (err runtime_error)
  with_headers file lbl pv (h ∷ rest) =
      with_metadata file lbl pv (h ∷ rest) (read_metadata utf8 is_float h file)

  abbrev with_label : Bytes → Result (Option LabelHeader) → Option (Result Disk)
  with_label file (err e) = some (err e)
  with_label file (ok none) = some (err runtime_error)
  with_label file (ok (some lbl)) =
      let pv = read_pv_header lbl file in with_headers file lbl pv (read_headers pv.meta_areas file)

  -- `Disk._init_headers`
  unfoldable pub init_headers : Bytes → Option (Result Disk)
  unfolding search_label read_pv_header read_headers with_label
  init_headers file = with_label file (search_label file)

module _ (crc32 : Bytes → ℕ → ℕ) (utf8 : Codec) where
  abbrev pub flush_next :
      MdaHeader
      → Bytes × Result MdaHeader
      → (Bytes → Bytes × List MdaHeader × Option Error)
      → List MdaHeader
      → Bytes × List MdaHeader × Option Error
  flush_next h (file, err e) next rest = (file, h ∷ rest, some e)
  flush_next h (file, ok h') next rest =
      let (file', headers, raised) = next file in (file', h' ∷ headers, raised)

  -- The loop of `Disk.flush_metadata`: the file, the headers, and what is raised. A header whose call
  -- raises stays as it was here; the source may have set the size and the checksum of its metadata.
  unfoldable pub flush_headers :
      Volumes → List MdaHeader → Bytes → Bytes × List MdaHeader × Option Error
  flush_headers md [] file = (file, [], none)
  flush_headers md (h ∷ rest) file =
      flush_next h (write_metadata crc32 utf8 h md file) (flush_headers md rest) rest

  unfoldable pub flush_metadata : Disk → Disk × Option Error
  unfolding flush_headers
  flush_metadata d =
      let (file, headers, raised) = flush_headers d.metadata d.ma_headers d.file in
      (record d { file = file; ma_headers = headers }, raised)

abbrev renamed_disk : Disk → Result Volumes → Result Disk
renamed_disk d (err e) = err e
renamed_disk d (ok md) = ok (record d { metadata = md })

-- `Disk.rename_vg`
unfoldable pub rename : Text → Disk → Result Disk
rename new_name d = renamed_disk d (rename_vg new_name d.metadata)

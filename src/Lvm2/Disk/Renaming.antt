-- ===== src/Lvm2/Disk/Renaming.antt =====
-- osbuild/util/lvm2.py: renaming the volume group of a disk.
use osbuild.Prelude.{
  ℕ, ◌+◌, ◌*◌, ◌<◌, ◌≤◌, Option, none, some, List, [], ◌∷◌, All, length, ◌≡◌, Bool, refl, sym, ap,
  ◌∙◌, subst, Result, ok, Error, false,
}
use osbuild.Lvm2.Text.{Text}
use osbuild.Lvm2.Text.Parts.{IsWord}
use osbuild.Lvm2.Metadata.{Value, Entries, entry, same_text, dict_end}
use osbuild.Lvm2.Encode.Tokens.{Lacks, IsReadable, AreReadable}
use osbuild.Lvm2.Struct.{Bytes, read_at}
use osbuild.Lvm2.Struct.Packed.{AllFit}
use osbuild.Lvm2.Volumes.{Codec, Volumes, encode, decode}
use osbuild.Lvm2.Volumes.Renamed.{volumes, decode-encode-rename_vg, rename_vg_lem}
use osbuild.Lvm2.Headers.{
  RawLocN, MdaFields, MdaHeader, mda_struct, mda_values, read_mda, calc_crc, header_size,
  read_metadata, write_metadata,
}
use osbuild.Lvm2.Headers.Rows.{IsLocation}
use osbuild.Lvm2.Headers.Flushed.{write_metadata-read}
use osbuild.Lvm2.Disk.{
  LabelHeader, PvHeader, Disk, flush_metadata, flush_next, flush_headers, rename,
}

-- A disk with one metadata area.
abbrev pub one_area : Bytes → LabelHeader → PvHeader → MdaHeader → Volumes → Disk
one_area file lbl pv h md = record {
  file = file;
  lbl_hdr = lbl;
  pv_hdr = pv;
  ma_headers = h ∷ [];
  metadata = md;
}

flush-written :
    (crc32 : Bytes → ℕ → ℕ) (utf8 : Codec) (h h' : MdaHeader) (md : Volumes) (file : Bytes)
    → (write_metadata crc32 utf8 h md file).1 ≡ ok h'
    → flush_headers crc32 utf8 md (h ∷ []) file
      ≡ ((write_metadata crc32 utf8 h md file).0, h' ∷ [], none)
unfolding flush_headers
flush-written crc32 utf8 h h' md file e = flushed (write_metadata crc32 utf8 h md file) e
  where
    flushed :
        (w : Bytes × Result MdaHeader)
        → w.1 ≡ ok h'
        → flush_next crc32 utf8 h w (λ x. (x, [], none)) [] ≡ (w.0, h' ∷ [], none)
    flushed (f, r) e =
        subst (λ x. flush_next crc32 utf8 h (f, x) (λ y. (y, [], none)) [] ≡ (f, h' ∷ [], none))
          (sym e) refl

-- What a flush leaves on the disk, and that it is read as these metadata.
OnDisk : Codec → (Text → Bool) → ℕ → Volumes → Disk × Option Error → Type 0
OnDisk utf8 is_float start md (d', raised) =
    (raised ≡ none)
    × ((n : ℕ)
        → header_size ≤ n
        → let h = read_mda (read_at start n d'.file) in
          (d'.ma_headers ≡ h ∷ []) × (read_metadata utf8 is_float h d'.file ≡ some (ok md)))

flush_metadata-OnDisk :
    (crc32 : Bytes → ℕ → ℕ) (utf8 : Codec) (is_float : Text → Bool) (start : ℕ) (h h' : MdaHeader)
    (file : Bytes) (lbl : LabelHeader) (pv : PvHeader) (md read_back : Volumes)
    → let file' = (write_metadata crc32 utf8 h md file).0 in
      (write_metadata crc32 utf8 h md file).1 ≡ ok h'
      → ((n : ℕ) → header_size ≤ n → read_mda (read_at start n file') ≡ h')
      → read_metadata utf8 is_float h' file' ≡ some (ok read_back)
      → OnDisk utf8 is_float start read_back (flush_metadata crc32 utf8 (one_area file lbl pv h md))
unfolding OnDisk flush_metadata
flush_metadata-OnDisk crc32 utf8 is_float start h h' file lbl pv md read_back done read content =
    rw (flush-written crc32 utf8 h h' md file done)
      (refl, λ n wide. (ap (λ x. x ∷ []) (sym (read n wide)), rw (read n wide) content))

module _ (k new_name : Text) (v : Value) (rest : Entries) (old : Lacks k rest)
    (new : Lacks new_name rest) where
  abbrev renamed : Volumes
  renamed = record { vg_name = some k; content = entry new_name v rest }

  rename_lem :
      (file : Bytes) (lbl : LabelHeader) (pv : PvHeader) (h : MdaHeader)
      → rename new_name (one_area file lbl pv h (volumes k v rest))
        ≡ ok (one_area file lbl pv h renamed)
  unfolding rename
  rename_lem file lbl pv h = rw (rename_vg_lem k new_name v rest old new) refl

  decode-renamed :
      (utf8 : Codec) (is_float : Text → Bool) (blob : Bytes)
      → ((s : Text) → utf8.decode (utf8.encode s) ≡ some s)
      → IsWord new_name
      → same_text new_name dict_end ≡ false
      → IsReadable v
      → AreReadable rest
      → encode utf8 renamed ≡ ok blob
      → decode utf8 is_float blob ≡ some (ok (volumes new_name v rest))
  decode-renamed utf8 is_float blob restores word closes readable all_readable encoded =
      let (md, renamed_to, raw, written, read) =
        decode-encode-rename_vg k new_name v rest old new utf8 is_float restores word closes
          readable all_readable in
      let same : md ≡ renamed = cc (renamed_to, rename_vg_lem k new_name v rest old new) in
      let same_raw : raw ≡ blob = cc (written, encoded, ap (encode utf8) same) in
      subst (λ b. decode utf8 is_float b ≡ some (ok (volumes new_name v rest))) same_raw read

-- A volume group that is renamed on a disk with one metadata area, where the metadata is readable and its
-- place is behind the header, and then flushed, has the new name on the disk: nothing is raised, the
-- header that is read from the disk is that of the object, and the metadata that it points to has the new
-- name for the same group, with the other entries as they were.
pub flush_metadata-rename :
    (crc32 : Bytes → ℕ → ℕ) (utf8 : Codec) (is_float : Text → Bool) (fields : MdaFields)
    (loc : RawLocN) (others : List RawLocN) (file : Bytes) (lbl : LabelHeader) (pv : PvHeader)
    (k new_name : Text) (v : Value) (rest : Entries) {d : Disk} {blob : Bytes}
    → ((b : Bytes) → calc_crc crc32 b < 0x1_0000_0000)
    → ((s : Text) → utf8.decode (utf8.encode s) ≡ some s)
    → AllFit mda_struct (mda_values fields)
    → All IsLocation (loc ∷ others)
    → 40 + 24 * length (loc ∷ others) + 24 ≤ header_size
    → header_size ≤ loc.offset
    → Lacks k rest
    → Lacks new_name rest
    → IsWord new_name
    → same_text new_name dict_end ≡ false
    → IsReadable v
    → AreReadable rest
    → rename new_name (
        one_area file lbl pv
          (record { fields = some fields; raw_locns = loc ∷ others })
          (volumes k v rest))
      ≡ ok d
    → encode utf8 d.metadata ≡ ok blob
    → 0 < length blob
    → length blob < 0x1_0000_0000_0000_0000
    → let (d', raised) = flush_metadata crc32 utf8 d in
      (raised ≡ none)
      × ((n : ℕ)
          → header_size ≤ n
          → let h = read_mda (read_at fields.start n d'.file) in
            (d'.ma_headers ≡ h ∷ [])
            × (read_metadata utf8 is_float h d'.file ≡ some (ok (volumes new_name v rest))))
unfolding OnDisk
flush_metadata-rename crc32 utf8 is_float fields loc others file lbl pv k new_name v rest {d} {blob}
      is_u32 restores fit located room apart old new word closes readable all_readable renamed_to
      encoded filled short =
    let h : MdaHeader = record { fields = some fields; raw_locns = loc ∷ others } in
    let md = renamed k new_name v rest old new in
    let same : one_area file lbl pv h md ≡ d =
      cc (renamed_to, rename_lem k new_name v rest old new file lbl pv h) in
    let encoded' : encode utf8 md ≡ ok blob = ap (λ x. encode utf8 x.metadata) same ∙ encoded in
    let (done, read, content) =
      write_metadata-read crc32 utf8 is_float fields loc others md file is_u32 encoded' filled short
        fit located room apart in
    let read_back =
      decode-renamed k new_name v rest old new utf8 is_float blob restores word closes readable
        all_readable encoded' in
    subst
      (λ x.
        OnDisk utf8 is_float fields.start (volumes new_name v rest) (flush_metadata crc32 utf8 x))
      same
      (flush_metadata-OnDisk crc32 utf8 is_float fields.start h _ file lbl pv md
        (volumes new_name v rest) done read (content ∙ read_back))

-- ===== src/Lvm2.antt =====
-- osbuild/util/lvm2.py: LVM2 metadata and the headers on a disk.
pub mod Text
pub mod Metadata
pub mod Encode
pub mod RoundTrip
pub mod Struct
pub mod Headers
pub mod Volumes
pub mod Disk

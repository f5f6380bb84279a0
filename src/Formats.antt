-- ===== src/Formats.antt =====
-- osbuild/formats: the manifest formats.
pub mod V1
pub mod V2

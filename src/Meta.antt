-- ===== src/Meta.antt =====
-- osbuild/meta.py: what the index knows of the modules on disk.
pub mod Runners
pub mod Schemas

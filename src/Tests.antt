-- ===== src/Tests.antt =====
-- Runs of the model at concrete inputs.
mod Samples
mod Manifests
mod Caches
mod Devices
mod Builds
mod Descriptions
mod Infos
mod Sources
mod Runs
mod FirstFormat
mod Indexes
mod Monitors
mod Services
mod Disks

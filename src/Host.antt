-- ===== src/Host.antt =====
-- osbuild/host.py: services, the calls to them and their manager.
pub mod Protocol
pub mod Service
pub mod Client
pub mod Calls
pub mod Replies
pub mod Manager

-- ===== src/Update.antt =====
-- pkg/update/updater.go: comparing versions, fetching and checking a release, and replacing the binary.
pub mod Versions
pub mod Replace
pub mod Install

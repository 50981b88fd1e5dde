-- ===== src/Prefs.antt =====
-- The preference sync of internal/plugin/ui/prefs.js.
pub mod Keys
pub mod Lists
pub mod Diff
pub mod Profiles
pub mod Defaults
pub mod Phantoms
pub mod Actions
pub mod Groups
pub mod Order
pub mod Follows
pub mod Sync

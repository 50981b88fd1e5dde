-- ===== src/Guide.antt =====
-- The guide: internal/plugin/ui/guide.js and the program index of internal/plugin/ui/app.js.
pub mod Windows
pub mod Rows
pub mod Refresh
pub mod Search

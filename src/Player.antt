-- ===== src/Player.antt =====
-- The live player: internal/plugin/ui/player.js.
pub mod Watch

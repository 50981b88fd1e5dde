-- ===== src/Tests.antt =====
-- Tests of the definitions, and each theorem applied to a concrete input.
mod Prefs
mod Sync
mod Multiview
mod Player
mod Guide
mod Companion
mod Polling
mod Lineup
mod Actions
mod Rows
mod Session
mod Selection
mod Order

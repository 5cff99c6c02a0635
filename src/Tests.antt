-- ===== src/Tests.antt =====
-- Runs at fixed inputs, and each theorem with hypotheses applied where they hold.
mod Png
mod Activity
mod Gallery
mod Site
mod Paths
mod Library
mod Bulk
mod Ingest
mod Store
mod Search
mod Export

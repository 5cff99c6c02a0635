-- ===== src/Png.antt =====
-- PNG files: the metadata stripper of deedlit.dev and the metadata reader of comfyhelper.
pub mod Format
pub mod Stream
pub mod Strip
pub mod Reader
pub mod Clean
pub mod Encode

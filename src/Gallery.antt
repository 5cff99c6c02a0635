-- ===== src/Gallery.antt =====
-- deedlit.dev: the gallery and book filters, the image index and the image route.
pub mod Fuzzy
pub mod Sort
pub mod Filter
pub mod Books
pub mod Ids
pub mod Route
pub mod Snapshot

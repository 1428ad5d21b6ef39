-- ===== src/Datasets.antt =====
-- The data sets that a file is imported into.
pub mod Texts
pub mod Parsing
pub mod Asked
pub mod Blamed
pub mod Imported

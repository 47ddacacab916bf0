-- ===== src/Sst.antt =====
-- Table files: their builder (src/table/sstable_builder.cpp) and their parser (src/sstparser).
pub mod Builder
pub mod Plan
pub mod Pieces
pub mod Layout
pub mod Lookup
pub mod Scanned
pub mod Picked
pub mod Found
pub mod Finish
pub mod Build
pub mod Parser
pub mod Parsing
pub mod ParsedTable
mod Tests

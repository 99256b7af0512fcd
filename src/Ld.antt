-- ===== src/Ld.antt =====
-- ld01, the linker (ld/).
pub mod Input
pub mod LinkMod
pub mod SRecords
pub mod LinkSyms
mod Tests

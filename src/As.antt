-- ===== src/As.antt =====
-- as01, the assembler (as/).
pub mod Const
pub mod Line
pub mod GenObj
pub mod Asm
pub mod Table
pub mod Scan
pub mod Express
pub mod MachineOps
pub mod GenBin
pub mod Pseudo
pub mod Assemble
mod Tests

-- ===== src/Tools.antt =====
-- source/tools: the dump program.
pub mod DataDump

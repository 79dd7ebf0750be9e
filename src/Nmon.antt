-- ===== src/Nmon.antt =====
-- src/vmp/vmp_nmon.c and src/vmp/vmp_nmon.h: reading the statistics files under /proc.
pub mod Strip
pub mod Scan
pub mod Lines
pub mod Read
pub mod Mem
pub mod Cpu
pub mod Net
pub mod Tests

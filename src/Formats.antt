-- ===== src/Formats.antt =====
-- The format modules of lib/format_*.c: how packets stand in trace files.
pub mod Bytes
pub mod Pcapfile

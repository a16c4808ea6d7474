-- ===== src/Trace.antt =====
-- lib/trace.c: what a client asks of a trace and of a packet, on top of a format module.
pub mod Time
pub mod Ports
pub mod Length
pub mod Reading
mod Tests

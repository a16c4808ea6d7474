-- ===== src/Protocols.antt =====
-- The header walk of lib/protocols_l2.c, protocols_l3.c and protocols_transport.c: from the link
-- layer to the payload.
pub mod Cursor
pub mod Fragment
pub mod PayloadLength
pub mod Layer2
pub mod Layer3
pub mod Transport
pub mod Within
pub mod Walk
pub mod Overrun
pub mod Options
mod Tests

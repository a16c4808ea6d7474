-- ===== src/DataStruct.antt =====
-- The data structures of lib/data-struct, one module for each source file.
pub mod Nodes
pub mod RingBuffer
pub mod SlidingWindow
pub mod Vector
pub mod Deque
pub mod LinkedList
pub mod MessageQueue

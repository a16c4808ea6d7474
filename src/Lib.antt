-- ===== src/Lib.antt =====
-- Verification of libtrace, a library that reads, inspects and writes packet traces, in one thread
-- or with a pipeline of threads: packets flow from a format module through per-packet threads and
-- a combiner to a reporter, over the queues of lib/data-struct; each of these may look into a
-- packet with the protocol decoders of lib/protocols_*.c, which start from the link type that
-- lib/linktypes.c translates between file formats.
--
-- Parts:
-- - DataStruct.RingBuffer (lib/data-struct/ring_buffer.c, .h): the ring that threads pass pointers
--   through. `Ring` is libtrace_ringbuffer_t; write, try_write, read, try_read, the bulk calls and
--   the variants with locks keep their names less the prefix. Single, BulkWrite and BulkRead run a
--   call with no other thread; a call that would wait on a condition variable has the outcome
--   `blocks`, with the ring it leaves behind. Threads is a step relation: one writer and one reader
--   that take no lock, interleaved at every access to `start`, `end` and `elements`, which memory
--   shows in the order written. The build with mutexes is modelled, where TRY_LOCK is LOCK.
-- - DataStruct.SlidingWindow (lib/data-struct/sliding_window.c, .h): `Window` is
--   libtrace_slidingwindow_t; View is a first number and the items from there on.
-- - DataStruct.Vector (lib/data-struct/vector.c, .h): `Vector` is libtrace_vector_t with an element
--   as one cell; Lists gives each call against the list of the elements in use.
-- - DataStruct.Deque and DataStruct.LinkedList (lib/data-struct/deque.c, linked_list.c): both keep
--   doubly linked nodes on a heap, which DataStruct.Nodes models as the writes made so far, with
--   malloc as a parameter and a check that only memory in use is touched. A call is a function on
--   the state that fails where C would touch memory that is not in use; the lock of the deque is
--   not modelled, so a call is a step. Nodes.Chain says when nodes are linked to a sequence, and
--   Nodes.Sequence compares runs of calls with runs on the sequence itself.
-- - Combiner (lib/combiner_unordered.c, lib/combiner_ordered.c, lib/combiner_sorted.c): `Ticks` holds
--   the two fields last_count_tick and last_ts_tick of libtrace_combine_t. A queue is the list of its results,
--   as DataStruct.Deque shows that it behaves, and no thread publishes while a call runs.
--   Combiner.Ordered.Merge models read_internal, read and read_final of the ordered combiner: the
--   live queues, the peeked keys and the search for the least of them, round by round.
--   Combiner.Sorted keeps the results in vectors and sorts them at the end, with qsort of the libc
--   as a parameter.
-- - Toeplitz (lib/hash_toeplitz.c): the hash that spreads packets over threads. Toeplitz is the hash
--   of bytes and of a packet, over the decoders of Protocols; Toeplitz.Key is the key, its expansion
--   to 320 words and the configuration, with random numbers as arguments.
-- - Trace (lib/trace.c): Time converts timestamps between ERF's fixed point and seconds with a
--   fraction; Ports is the guess of the server port; Length is the cached lengths of a packet and
--   the length of its buffer; Reading is trace_read_packet over a format module that yields a
--   sequence of outcomes, which with the filter and the truncation to a snap length are parameters.
-- - Checksum (lib/checksum.c): buffers are lists of bytes, the host is little-endian.
-- - LinkTypes (lib/linktypes.c): the translations between libtrace's link types, the DLTs of pcap,
--   the link types of pcap files, RT packet types, ERF types and ARPHRD types.
-- - Protocols (lib/protocols_l2.c, lib/protocols_l3.c, lib/protocols_transport.c): the accessors
--   that walk from the start of a packet to its layer 3 and transport header. Memory is a function
--   from addresses to bytes; a cursor is a pointer, the kind of header found there and the count
--   of remaining bytes, in 32 bits, that the C functions pass around; the packet keeps the caches
--   of layer 3 and layer 4. In Protocols.Within, a cursor ends where another ends if pointer plus
--   count are equal. Fragment is the fragment offset and the ports, PayloadLength the payload length.
-- - DataStruct.MessageQueue (lib/data-struct/message_queue.c): the messages to a thread. `System` is
--   the pipe, the count and the threads that use them; a step is one access of one thread, and the
--   pipe's reads and writes are atomic.
-- - Parallel (lib/trace_parallel.c): an item of a packet queue is told apart by the field `error` of
--   its packet. Hasher is hasher_entry, trace_pread_packet_hasher_thread and the loop of
--   perpkt_threads_entry, with the queues as the sequences that DataStruct.RingBuffer shows them to
--   be; how much of its queue a thread finds written, and which messages it finds, are arguments, and
--   a pause leaves the model. Hasher.Stopping is a run that such a message cuts short.
--   Dispatch is dispatch_packets over the array of packets, with its NULL slots. Filter is
--   filter_packets over the same array, and Pread is trace_pread_packet_wrapper, over a format module
--   that yields batches. States is the counts of threads by state, and the checks
--   that trace_ppause makes with the lock held.
-- - Formats.Pcapfile (lib/format_pcapfile.c): a format module, over files behind the interface
--   `Wandio` of Formats.Bytes, whose laws say what libwandio does while there is no error. Writing
--   asks a packet of any format for a `View`; Reading is a client that reads a file to its end.
--   Formats.Bytes also has lib/byteswap.c and words as bytes; the host is little-endian.
-- - Wireless (lib/link_wireless.c, and the cooked header of lib/protocols_pktmeta.c): the search for
--   a field in a radiotap header, and the accessors over it. Radiotap.Layout is the layout that the
--   search is compared with.
-- - Prelude holds the shared names, Boolean tests, lists and options over the native numbers, 32-bit
--   and 64-bit arithmetic with its wrap-around, and stretches of a circular array.
--
-- Bounds and fuel: `size_t` and the ring's counters are 64 bits wide, `uint32_t remaining` 32. The
-- rounds of a bulk call are bounded by the number of buffers asked for, as every round moves at
-- least one; those of append by 64, as max_size doubles; those of finish_checksum by 3. The walks
-- over MPLS labels, VLAN tags and extension headers are bounded by the bytes that remain, as each
-- header takes some. The ordered combiner's loop is bounded by one more than the queued results, as
-- every round but the last takes one; deinit of a list by one more than its size; a client that
-- reads a trace to its end by one more than the events the format module has for it, and one that reads
-- a pcap file by one more than its packets. The loop of a packet thread has two more than the items of
-- its queue; the words of a radiotap bitmask are bounded by an argument; what is behind a cooked header
-- is never a cooked header, so that the accessors of Wireless need fuel for two calls.
--
-- Not modelled: the rest of the trace management and the threads (lib/trace.c,
-- lib/trace_parallel.c): start and join, what a packet thread does while it is paused, first
-- packets and the delay in trace time, the reporter; the other format modules, which are mostly
-- I/O on files, sockets and capture hardware; the buckets and the object cache, OSPF and the
-- metadata headers but for the cooked one, demote_packet, libpacketdump, the tools, and what
-- stands in for a platform's functions but for byteswap.c. Allocation is taken to succeed, as
-- assertions in the code do.
pub mod Prelude
pub mod DataStruct
pub mod Formats
pub mod LinkTypes
pub mod Parallel
pub mod Protocols
pub mod Wireless
pub mod Checksum
pub mod Combiner
pub mod Toeplitz
pub mod Trace

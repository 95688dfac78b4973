-- ===== src/Lib.antt =====
-- g-os, a hobby operating system for 32-bit PCs: its data structures, its kernel allocator, its
-- scheduler and its network code, modelled from the C sources.
--
-- The parts and the files that model them (paths are from the repository's root):
-- * DataTypes.Dllist models data_types/dllist.c, circular lists with a sentinel, over a heap that says
--   which addresses hold a live node. DataTypes.Queue models data_types/queue.c on top of it, and
--   DataTypes.Hashtable models data_types/hashtable.c with each bucket as the list of its entries.
-- * Memory.FixedSize models memory_manager/fixed_size.c, pools of blocks of one size, and
--   Memory.Kmalloc models memory_manager/kmalloc.c: sixteen such pools and the aligned allocations,
--   which keep their original addresses in a hash table. Memory.Buddy models memory_manager/buddy.c,
--   blocks of pages that are split and coalesced; its proofs view the memory as a row of trees.
-- * Scheduler models scheduler/scheduler.c: the ten queues, the choice of the next process, sleeping
--   and waking. Scheduler.Semaphore models synchro_types/semaphore.c, which calls both.
-- * Network.Checksum models the checksum of network/socket_buffer.c and the macros of
--   include/common.h, Network.SocketBuffer the bounded queue of that file, Network.Ip4 network/ip4.c,
--   Network.Arp network/arp.c, and Network.Udp network/udp.c, which calls IPv4 to send and is called
--   by it to receive. Network.Icmp models the echo requests and replies of network/icmp.c.
-- * Network.TcpSocket models reading and closing of network/tcp_socket.c, Network.TcpSend its writing
--   to the send ring, and Network.TcpControl the segments without data that connect_tcp sends and
--   rcv_packet_tcp of network/tcp.c receives, for one pair of addresses and ports.
--   Network.TcpReceive models the data of a segment: the ring of received bytes with the marks of
--   those that come out of order, and when they are acknowledged.
-- * Ext2.Bitmap models find_free_inode, find_free_block and the inode's part of free_inode in
--   include/ext2/ext2_utils_2.h and ext2_utils_1.h.
-- * Common holds the names and lemmas that the others share.
--
-- Function names are those of the C code. Numbers are natural numbers; where the C code can wrap, the
-- wrap is written out (`pool_offset`, `time_slept`, `adjust_sched_queue`, the sums of a checksum, the
-- lengths of packets). Addresses are numbers, and what stands behind one is a field of the state. A
-- call of `panic`, an access to freed memory and a copy past the end of the buffer of a datagram are
-- results of their own. Each call is one step:
-- interrupts are off in the code that is modelled, and interleavings are sequences of calls (the step
-- relations of Memory.FixedSize.Trace, Network.TcpReceive.Trace, Memory.Buddy.Run and Scheduler.Turns,
-- and the lists of calls in DataTypes.Hashtable.Map and Scheduler.Semaphore).
--
-- Fuel: the loops of `ll_size` and `free_llist` take more fuel than the list has nodes.
-- `hashtable_put` and `rehash` call one another, and a depth of two is enough for a loaded table. The
-- loop of `kfree` takes 4096 rounds, which reach past every 32-bit offset. The folding of a checksum
-- takes four rounds, enough for any sum below 2 ^ 31, which 65535 bytes do not reach. The port search
-- counts its 32767 rounds itself. The search for received bytes takes as many rounds as the ring has
-- slots, after which the condition of its loop fails.
--
-- A parameter stands for what is not modelled: the address of a fresh node, the contents of an
-- uninitialised variable (`unset`), and the result of `lookup_mac`, which may sleep, and
-- what a connection has become after a sleep. Not modelled are the nodes of the map of aligned
-- addresses, which come from the same pools, the buffers that packets are built in, what is sent
-- after a write, the acknowledgements that TCP receives and its timers, sockets, virtual memory, the
-- rest of the file system, the drivers and the programs in process/.
pub mod Common
pub mod DataTypes
pub mod Memory
pub mod Ext2
pub mod Network
pub mod Scheduler

-- ===== src/Lib.antt =====
-- A model of the parts of the kernel that carry its own logic, and proofs of what makes them correct.
--
-- Parts and files. A C++ function keeps its name in snake_case, a field loses its `m_`.
-- Mem/CircularBuffer models mem/circularbuffer.cpp with include/aex/mem/circularbuffer.hpp: the byte
--   ring under pipes, message queues and TCP sockets. Each round of a loop runs under the lock; what
--   other threads do while a thread waits is a list of turns, and the loops take fuel, of which the
--   number of bytes and the number of turns together are enough.
-- Mem/Bitmap and Mem/FramePiece model mem/frame_piece.hpp, a bitmap of page frames, and Mem/Phys
--   models `alloc` and `free` of mem/phys.cpp, which go over a list of such pieces.
-- Mem/Heap models mem/heap.cpp. Memory is a byte for each address; Bytes has loads and stores, Scans and
--   Search `findFree`, Marks the bitmap, Blocks says what it is that bitmap and headers agree with the
--   blocks that were given, NewBlock, Alloc, Free, Runs and Again follow a slab's calls, Create a new
--   slab, and Calls, Root, Payload and Realloc those over the list of slabs. A search takes fuel for each
--   word of the bitmap and one round more, `malloc` for each slab that it looks at.
-- Mem/Paging models the page tables of arch/x86_64/mem/paging.cpp: a word for each frame and index, and
--   the frames that the physical allocator will give. Flags is on the `|` of an address and its flags,
--   Tree says which frames are tables, Walk and Ensure follow `findTableEnsure`, Entries and Refine
--   compare the tables with an address space, a function from pages to entries. Mem/Paging/Areas has
--   `findContiguous`, which takes fuel for a round for each page of the bounds, `alloc`, `map` and `free`,
--   with their loops over pages.
-- Net/Sequence and Net/Tcp model mod/core/netstack/socket/inet/tcp.cpp with tcp.hpp: the TCP socket, over
--   two of the rings above. Net/Tcp has the data and what the handlers share, Options `readOptions`,
--   Receive `packetReceived` cut into parts that go on or return, Listen `packetReceivedListen` with
--   the table of half-open connections, Send `package`, `retransmit` and `tick`, and Calls what
--   programs call. What a call finds after each wait is a list of turns, and the segments that a socket
--   sends are a log. `package` takes one round more than it has bytes, `sendTo` and `receiveFrom` one
--   more than bytes and turns together, `readOptions` as many as the header has bytes.
-- Fs/Path models fs/path.cpp: Components and Pieces go with the walker through a path, Valid has
--   `is_valid`, and Buffers, Written, Room and Canonize follow `canonize_path` through its buffer, a byte
--   for each index. Its loops take the length of the path, or one more, as fuel.
-- Ipc/MessageQueue models ipc/messagequeue.cpp over the ring of bytes: Rings has its calls of the ring,
--   Messages the bytes of a message, and Order what the calls make of the queue. Ipc/Event models
--   ipc/event.cpp: Waiters has a step for each use of the class Event, and Simple is SimpleEvent.
-- Net/Arp models mod/core/netstack/layer/link/arp/table.cpp: the addresses of the local network, and the
--   queries for them. Net/TcpProtocol models mod/core/netstack/protocol/inet/tcp.cpp, the list of all
--   sockets and their ports. Lang/Strings models kernel/string.cpp, Lang/Numbers `itos` and `stoi` of
--   include/aex/string.hpp with fuel for one round more than the magnitude, and Lang/Print
--   kernel/snprintf.cpp with one more than the format has characters. Sync/Mutex models
--   kernel/mutex.cpp, and Sync/RwMutex kernel/rwmutex.cpp, with a step for each way of using it.
-- Proc/Scheduler models `schedule` of proc/scheduler.cpp for any number of processors. Picks has its loop,
--   Currents, Switches and Exclusive that no thread runs on two processors, Starves the thread that
--   never runs. The loop takes one round more than there are threads.
-- Base has the tests, lists and integers that the parts share.
--
-- How code is read. Sizes and positions are native numbers; a machine word wraps where `% 2 ^ w` is
-- written out; an `int` that goes below 0 is an integer of Base/Int. Pointers to a list of nodes are a
-- list. `kpanic`, and a failed `AEX_ASSERT`, which calls it, is `none`.
--
-- Of the socket, the checksum and the layers below it, the constructor and the destructor, with their
-- entries in the list of all sockets, are not modelled; the time is an argument.
-- Not modelled: the hardware, its registers and interrupts (the rest of arch), device drivers, the boot
-- code and the output of messages, which have effects but no result that the modelled parts use; the
-- spinlocks, which are where a step begins and ends here; the life of threads and processes, whose
-- stacks and contexts are the processor's; files and inodes, virtual classes over the drivers; and the
-- loader of executables and modules, which reads images through raw pointers.
pub mod Base
pub mod Fs
pub mod Ipc
pub mod Lang
pub mod Mem
pub mod Net
pub mod Proc
pub mod Sync

-- ===== src/Lib.antt =====
-- Models and proofs of the parts of misc-c that carry its logic.
--
-- misc-c is a C library for small Linux systems with the processes and tools built on it. Its
-- containers (lib/type, lib/fifo, lib/msg_q) serve the event library (lib/event), the memory pools
-- (lib/mp) and the network modules (net); the command line (mgnt/cli) calls hooks of the modules,
-- which push events into their message queues, and their threads take them out again.
--
-- The files, and what they model:
--   Base          numbers, lists, and memory as lists of bytes
--   Fifo          lib/fifo/fifo.c: the byte ring (fifo_create, fifo_write, fifo_read and the rest)
--   Heap          lib/type/type_heap.c and lib/include/type/type_heap.h: the intrusive heap, with
--                 the functions that the macro declare_heap defines
--   MsgQueue      lib/msg_q/msg_q.c and lib/include/msg_q/msg_q.h: the message queue
--   LinkedList    lib/type/type_list.c and lib/include/type/type_list.h: the intrusive list
--   HashTable     lib/type/type_hash.c and lib/include/type/type_hash.h: the intrusive hash table
--   JHash         the hash functions jhash, jhash2 and jhash_3words of lib/type/type_hash.c
--   Cli           mgnt/cli/cli_trie.c and mgnt/include/cli/cli_trie.h: the command line's tree of
--                 commands (split of a line, registration, match, arguments, completion)
--   Zcap          net/zcap/zcap.c and net/include/zcap/zcap.h: flow keys, filters and counters of the
--                 packet capture
--   Tftp          net/nt/tftp.c: the client of TFTP, its states, packets and timers
--   Timer         lib/event/ev_timer.c: the timers of low resolution, over Heap
--   Mpmc          lib/type/type_atom_queue.c: the lock-free queue of many producers and consumers
--   NonFixed      lib/mp/mp_nonfixed.c: a pool of memory blocks of any size
--   Http          mgnt/web/http.c and mgnt/include/web/http.h: the parser of requests (Print: requests
--                 as a client writes them) and the choice of the file
--   Web           mgnt/web/web.c: the bytes of a connection, over Http
--   Syslog        lib/syslog/syslog.c: the ring of the last lines and the buffer of the log file
--   Cmcp          net/cmcp/cmcp_fsm.c and net/cmcp/cmcp.c: the state machine of CMCP and its hooks,
--                 over MsgQueue
-- A definition has the name of the C function it models, less a leading underscore; a part of a
-- function that stands alone is named for what it does, with a comment that says where it is from.
-- The children of a module hold its invariant and its theorems, its Tests the runs on concrete
-- values.
--
-- State. Each structure is a record and each function that changes one returns the new one. size_t
-- and unsigned int keep their wrap-around written out where the code relies on it or may reach it.
-- Memory behind a pointer is a list of bytes (Fifo, MsgQueue), a function from the addresses of
-- pointers (LinkedList), or a store of index fields (Heap); a chain of the hash table is the list
-- of its items. A call that can fail returns an option or the code's own result. Where the code
-- reads through a NULL pointer, the model has no result.
--
-- What the environment does is a parameter: whether there is memory or how much of it, the
-- comparison function of a heap, how the waits of a pop end. The spinlock of the message queue is
-- taken as mutual exclusion, so that a push is two steps, the section under the lock and the post;
-- MsgQueue.Wakeup interleaves them with the consumer's. The mutex of the tree of commands is taken
-- as mutual exclusion too.
--
-- Loops. The sift-down of the heap runs on fuel count + 1, and each round moves to a child, whose
-- index is larger; the sift-up runs on fuel equal to the index, which each round lowers. The
-- search of type_list_del takes its fuel as an argument, and the theorem about it asks for more
-- fuel than there are items. The wait of a pop recurses on the list of the outcomes of its waits.
-- The loops of jhash and jhash2 run len / 12 and len / 3 times, as often as their conditions hold.
-- hash_shift counts at most 32 binary digits, all that an unsigned int has. The loops of _cmd_split
-- run on fuel equal to the length of the line, plus one for the outer loop: each round moves on.
-- The loop over the headers of a request runs on the length of the buffer, since a round takes a CR
-- LF out of it; the loop over a connection takes its fuel as an argument, since it may not end. The
-- full merge of a pool runs on the length of its list plus one, and a round takes a block out of it.
-- The loop of the clock runs on the count of the heap plus one: each round but the last takes one
-- timer out.
--
-- Texts and packets. A C string is the list of its bytes without the NUL, and a captured packet
-- the list of its bytes, which Zcap and Tftp read with the same functions. Where the code reads
-- outside of a packet or writes past an array, the model has no result, or one that says so. What
-- files, memory and sockets answer to the TFTP client is given at each step; what it sends is a
-- list in its state. A write of the log to its file is taken to write all bytes, and the prefix
-- of a line, which the C library makes from the time, is given with its entry. A flush of the
-- thread that flushes is two steps, as it writes without the lock. A start of a timer is two
-- steps, of which each tests and uses the heap at once, where the code holds the lock for the
-- access to the heap alone.
--
-- Memory. The pool of NonFixed has its chunk in one space of addresses, and a node is 144 bytes,
-- as on 64 bits. Its skip lists are lists in their order; the levels are not modelled. Blocks of
-- one size are in the order of an int that holds the difference of their addresses, which is that
-- of the addresses in a chunk of fewer than 2^31 bytes. A block that another thread puts counts
-- with those that are held until the thread that recycles moves it.
--
-- Threads. The queue of Mpmc goes on in steps of one atomic access of one thread, in any order,
-- and an exchange may fail without cause. A node is its address, which a pop frees. The allocator
-- gives memory; that it gives no address twice is a condition of the theorems. Freed memory reads
-- as before, and the versions, which count to 2^64, do not wrap. The value of a node, which is
-- set before the node is linked, is read with the exchange of the head. Accesses are in one
-- order: the code asks for that order at each of them.
--
-- Not modelled: whatever is device, socket, file or terminal I/O, the debug output and the tests;
-- the rates of the capture, which are floating-point numbers; and the skip list, the lock-free
-- queues of one producer or one consumer, the timers of high resolution, the other memory pools and
-- the modules built on them, which depend on none of the parts above except through their functions.
pub mod Base
pub mod Cli
pub mod Cmcp
pub mod Fifo
pub mod HashTable
pub mod Heap
pub mod Http
pub mod JHash
pub mod LinkedList
pub mod Mpmc
pub mod MsgQueue
pub mod NonFixed
pub mod Syslog
pub mod Tftp
pub mod Timer
pub mod Web
pub mod Zcap

-- ===== src/Lib.antt =====
-- DeodeokOS: a 64-bit teaching kernel in C. This library models the core of its 64-bit kernel
-- (volumes/02.Kernel64/Source) and proves what its parts promise.
--
-- Parts and files:
--   Base             helpers: Boolean tests on numbers, lists, arrays as functions.
--   Memory           kMemSet, kMemCpy and kMemCmp of Utility.c on little-endian memory.
--   Text             strings and hexadecimal numbers of Utility.c, in memory.
--   Queue            Queue.c, the ring buffer; Queue/Fifo is its specification.
--   LinkedList       List.c, linked lists threaded through memory.
--   DynamicMemory    DynamicMemory.c, the buddy allocator behind kAllocateMemory and kFreeMemory.
--   CacheManager     CacheManager.c, the cluster cache with its access times.
--   Task             Task.c: the TCB pool in Task, the scheduler in Task/Schedule.
--   SpinLock         Synchronization.c, the spinlock as interleaved steps of CPUs.
--   Mutex            Synchronization.c, the mutex, call by call.
--   Keyboard         Keyboard.c: the key table, the scan code state machine (State), the waits for
--                    the controller (Controller) and the key queue (Convert).
--   Console          Console.c, text in the video memory; Console/Terminal is its specification.
--   FileSystem       FileSystem.c over a block device: sectors and clusters with the cache (Sectors),
--                    the link table (Links), format and mount (Format), directory entries and
--                    handles (Directory), files (ReadWrite, Seek, Files).
--   SerialPort       SerialPort.c, sending and receiving on COM1.
--   MpTable          MPConfigurationTable.c, the search for the table and the walks over it.
--   Devices          PIC.c, PIT.c and RTC.c, over their ports.
--   RamDisk          RAMDisk.c, the block device in memory.
--
-- Correspondence. A struct is a record with the struct's fields, in snake_case without the type
-- prefix (iItemCount is item_count); a function keeps its name without the k (kPutQueue is
-- put_queue), takes the state that it reads and returns the state that it writes. Pointers are
-- addresses, NULL is 0. A byte memory is a function from addresses to bytes (Memory); the links of a
-- list are a function from addresses to links (Links). BOOL is Bool. An int is its 32-bit pattern
-- and a QWORD is below 2^64: additions and subtractions that can wrap are written with % 2 ^ w.
--
-- Interaction. Queue and Console copy blocks with Memory's mem_cpy, which Console scrolls with.
-- DynamicMemory reads its bitmaps' words with load_bytes of Memory, and MpTable compares strings
-- with mem_cmp. CacheManager allocates its buffers with DynamicMemory's allocate_memory and
-- free_memory. Keyboard puts its keys into a Queue and takes them out, and Console takes its
-- characters from there. FileSystem caches with CacheManager, and RamDisk is a block device of it.
-- Task keeps its ready, wait and child lists with LinkedList's functions. The functions of
-- DynamicMemory and Task run under spinlocks, the subject of SpinLock.
--
-- Loops. A loop with a known number of rounds recurses on it. The searches of List.c recurse on
-- fuel and return none when it runs out; more fuel than the list is long is enough. find_loop of
-- DynamicMemory has as many rounds as the level has blocks and one more. The fuel of a keyboard
-- conversion bounds how deep its calls nest: more than the device has codes to send is enough. The
-- loops over a file take more fuel than there are bytes or clusters. A string is measured and read
-- with more fuel than it has characters; a QWORD has at most 16 hexadecimal digits. Task searches
-- its lists with a fuel of 1025, one more than there are TCBs. A wait of SerialPort takes more
-- polls than the device needs, and its rounds are at most as many as there are bytes; the walks
-- over the MP table have a round for each entry.
--
-- Not modelled: assembly, and what the hardware does behind the ports (a parameter of Keyboard,
-- Console, SerialPort and Devices); kVSPrintf, the commands of the shell, the hard disk, the
-- APICs, the descriptor tables and the 32-bit kernel. Functions that run under a lock are single
-- steps, so a file system call is a step on its state. The cache of the file system is modelled;
-- the theorems on its link table are for a device without it.
pub mod Base
pub mod CacheManager
pub mod Console
pub mod Devices
pub mod DynamicMemory
pub mod FileSystem
pub mod Keyboard
pub mod LinkedList
pub mod Memory
pub mod MpTable
pub mod Mutex
pub mod Queue
pub mod RamDisk
pub mod SerialPort
pub mod SpinLock
pub mod Task
pub mod Text

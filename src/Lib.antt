-- ===== src/Lib.antt =====
-- The failure-atomic snapshot library: libstoreinst, which logs stores to a file in persistent
-- memory and copies them to a backing file on msync, and libcxlfs, which keeps a range of
-- addresses on a block device with a few of its pages in memory.
--
-- The parts and their files (paths from the repository's root):
--
--   StoreInst/Memory      memory as a function from addresses to bytes; memcpy, 64-bit arithmetic
--   StoreInst/Entry       src/libstoreinst/log.hh, log_entry_t
--   StoreInst/Log         src/libstoreinst/log.hh and log.cc, Log: log_range, flush_all, clear,
--                         set_state, init_thread_buf
--   StoreInst/Recovery    src/libstoreinst/recovery.cc: needs_recovery, recover, the constructor
--   StoreInst/Align       src/libstoreinst/libc_wrappers.cc: previousPowerOfTwo, and the widening of
--                         a write in snapshot
--   StoreInst/Apply       the loop of snapshot over a log's entries
--   StoreInst/Snapshot    snapshot itself
--   StoreInst/Stores      checkMemory of libstoreinst.cc, addr_in_range of utils.cc, the wrappers of
--                         memcpy, memmove and memset
--   StoreInst/PmemFile    src/libstoreinst/recovery.cc: the backing file of a mapped file
--   StoreInst/Wrappers    src/libstoreinst/libc_wrappers.cc: mmap, fsync, fdatasync, munmap;
--                         recovery.cc: map_to_page_cache, write_dependency
--   StoreInst/BgFlush     src/libstoreinst/bgflush.cc and bgflush.hh
--   CxlFs/Controller      src/libcxlfs/controller.cc, and PFMonitor::handler of pfmonitor.cc
--   CxlFs/Sampling        src/libcxlfs/membwdist.cc: start_sampling, get_samples, get_dist
--   CxlFs/BlkDev          src/libcxlfs/blkdev.cc, UserBlkDev, and the requests of controller.cc
--   CxlFs/Files           src/libcxlfs/libcxlfs.cc: open, lseek, mmap, malloc, flush_caches
--   Pass                  src/storeinst-pass/storeinst.cc, the compiler pass
--   DsaEmu                src/libdsaemu/libdsaemu.cc, the thread that copies for descriptors
--   Containers            src/include/container/vector.hh and string.hh
--   Examples/SimpleKv     src/examples/simplekv_cxlbuf/simplekv_puddles.hh
--   Examples/LinkedList   src/examples/linkedlist_tx/linkedlist_tx.cc, src/examples/list.hh
--   Examples/Btree        src/examples/btree/btree.cc and btree.hh: get, lookup, foreach, split
--   Witnesses             concrete runs
--   Prelude               shared names, tests on numbers, lists
--
-- How they interact: a store to the tracked range [start_addr, end_addr) first goes to log_range,
-- which appends the old bytes to the thread's log and remembers address and length. snapshot
-- copies the remembered ranges from the page cache to the backing file and empties the logs. When
-- a file is mapped, it is placed in the tracked range and a backing file is made beside it or
-- copied over it. Before that the constructor of PmemFile looks for an active log and undoes its
-- entries on the backing file. Apart from this, an access to a page of libcxlfs that is not in
-- memory raises a signal, and the handler has the controller evict a page and read the one asked
-- for. The controller of CxlFs/Controller stands on one array of sectors, which has of each page
-- what the device accepted last, while a read may find other bytes, of a failed read, or of a
-- write that is pending or has failed; CxlFs/BlkDev has the device that spreads its requests over
-- the namespaces of several drives. Where eviction looks for a cold page, the distribution comes
-- from CxlFs/Sampling. The compiler pass puts a call of checkMemory before the stores of a
-- program, and the examples are such programs: a map on the vectors and strings of Containers, a
-- list of nodes, and a tree of nodes.
--
-- State and operations: records carry the names of the source's members; an operation takes the
-- state and returns the new one; `none` is an exit of the program, and an int result 0 or -1 is a
-- Bool. Calls into libc, the kernel and the block device are parameters: what they answer is part
-- of the arguments (EvictEnv, InitEnv, LogFiles, real_msync; Nvme, WriteEnv, ReadEnv and ProbeEnv
-- for SPDK and the drives), and std::sort is a Sorter. So are the alias analysis of LLVM (Alias),
-- the allocators of the containers and the list (Malloc, Allocate), and the hash of strings.
--
-- Machine integers: addresses and sizes are natural numbers. Where the source's arithmetic can
-- wrap (addresses in snapshot) add64 and sub64 wrap; the fields of log_entry_t are cut to 56 and
-- 23 bits. Offsets into a log do not wrap, since a log area has 409,600,000 bytes.
--
-- Fuel: get_free_fd looks at one descriptor more than there are open files; each descriptor it
-- passes is the one of a file. find_entries gets the log's length as its number of rounds, and
-- each round moves by ten bytes or more. clz counts in 64 bits. get_dist looks at 513 records at
-- most, and more rounds only meet the record that stops it; a loop over the nodes of the linked
-- list gets one round more than there are nodes, and numbers that commands still add, and the
-- reads of the tree one round for each level. A wait for the block device recurses on the list of
-- what it is told at each poll. All other loops recurse on a list or count down a number of the
-- source.
--
-- The build is the default one of make.config with RELEASE set: a volatile list of entries,
-- aligned snapshot writes, no testing goodies, and no background flushing (StoreInst/BgFlush
-- models the queue by itself). A failed NVSL_ASSERT in the controller, in lseek and in
-- map_backing_file is an exit; the assertions that NDEBUG removes, those of a null log area,
-- statistics and messages are left out. The page cache and the backing file are disjoint memories.
--
-- Not modelled: insertion into the B-tree, but for the split of a node, and removal from it; NUMA
-- binding and libpmbuffer, which are system calls; libvram, which calls Vulkan; libvramfs (the
-- descriptor table of CxlFs/Files over another allocator); libpmdkemul, which passes calls of PMDK
-- on to an allocator; pair.hh, whose pairs are pairs here, and the allocator of reservoir.hh; the
-- other examples, of which map_pmdk and linkedlist_pmdk are copies of those of PMDK; and the
-- copies of other projects under vendor.
pub mod Prelude
pub mod StoreInst
pub mod CxlFs
pub mod Pass
pub mod DsaEmu
pub mod Containers
pub mod Examples
pub mod Witnesses

-- ===== src/Lib.antt =====
-- A verification library for the kernel of UNIX/32V in its hosted form (32v-unx/*.c): the
-- allocators, the queues, the buffer cache, the terminals, and the processes that sleep and wake.
--
-- The parts, and the files that model them:
-- - 32v-unx/malloc.c (ResourceMap): the first-fit map of (size, address) pairs from which swap
--   space, UNIBUS registers and data paths are allocated. `malloc` and `mfree` are the in-place
--   loops of UNIX_malloc and UNIX_mfree over the array, with its 16-bit fields.
-- - 32v-unx/prim.c (Clist): the character lists between the terminals' interrupt routines and the
--   processes. `getc`, `putc`, `q_to_b`, `b_to_q`, `getw`, `putw` and `cinit` are the functions of
--   these names (UNIX_getc and so on) over an explicit memory of blocks and one free chain.
-- - 32v-unx/clock.c (Callout): the table of calls to be made by the clock. `timeout` is
--   UNIX_timeout; `clock_callouts` is the part of UNIX_clock that counts down and calls.
-- - 32v-unx/alloc.c (FreeBlocks): the free block list of a volume, whose addresses stand partly in
--   the super block and partly in free blocks. `alloc`, `free`, `ifree`, `badblock` and `getfs` are
--   UNIX_alloc, UNIX_free and so on.
-- - 32v-unx/subr.c (BlockMap): the translation of a file's block numbers to the volume's. `bmap` is
--   UNIX_bmap; it gets new blocks from FreeBlocks.
-- - 32v-unx/fio.c (OpenFiles): descriptors and the table of open files. `getf`, `ufalloc`, `falloc` and
--   `suser` are UNIX_getf and so on.
-- - 32v-unx/dsort.c (DiskQueue): the queue of requests of a disk. `disksort` is UNIX_disksort, its
--   pointers into the queue are positions.
-- - 32v-unx/bio.c (Buffers): the buffer cache. `getblk`, `brelse`, `bwrite` and so on are UNIX_getblk
--   and so on, up to the point where the source sleeps; Buffers.Io has the functions that use them.
-- - 32v-unx/slp.c and sig.c (Processes): the process table, who sleeps on which address, the queue
--   of those that can run, and signals (Processes.Signals). `sleep`, `wakeup`, `setrun`, `psignal` and
--   so on are UNIX_sleep and so on. A sleep is two steps, up to UNIX_swtch and from there on. The calls
--   of UNIX_setrun and UNIX_wakeup of one another need two levels: the second finds `runout` 0.
-- - 32v-unx/tty.c (Terminals): `canon`, `ttyinput`, `ttyoutput` and so on are UNIX_canon and so on, on
--   the three character lists of a terminal, which share the pool of Clist. `t_oproc`, the start of
--   the driver's output, is a parameter, and calls of UNIX_wakeup, UNIX_signal and UNIX_sdata are noted.
-- - 32v-unx/malloc.c (Frames): the page frames. `memall`, `memfree` and `meminit` are UNIX_memall and
--   so on; the search for free frames needs a round for each frame of the memory.
-- - 32v-unx/iget.c (Inodes.Table): the table of inodes in core. `iget`, `iput`, `iupdat` and `iexpand` are
--   UNIX_iget and so on, on the inodes of the devices, which are the record `Volumes`; `found`, `waits` and
--   `refused` are a returned inode, a sleep on one, and NULL.
-- - 32v-unx/fio.c (Inodes.Access): `access` is UNIX_access, the test of a file's mode.
-- - 32v-unx/rdwri.c (FileIo): reading and writing of files by bytes. `readi`, `writei`, `iomove_read` and
--   `iomove_write` are UNIX_readi and so on, over the blocks of a file. What they rely on, UNIX_bmap and
--   the buffer cache, is the record `Disk`, with its laws in FileIo.Store. FileIo.Tree shows that BlockMap
--   meets those for reading, and FileIo.Placed that it meets all of them for the blocks that a file has.
--   UNIX_copyin, of missing.c, panics: `panicked` is a round in which UNIX_iomove would take bytes of a
--   process.
-- - 32v-unx/pipe.c (Pipes): `readp` and `writep` are UNIX_readp and UNIX_writep from their label `loop` to a
--   sleep or a return, and `writep_loop` is the loop of UNIX_writep. The inode, its lock and the modes of
--   h/inode.h are in Inodes.
-- - Prelude: numbers, tests, options and lists that the others share.
--
-- How the state corresponds. Memory that the C code reaches by pointers is a function from
-- addresses (Clist.Pool, FreeBlocks.Volume), a fixed array is a list (the table of inodes a
-- function). Each function of the source is a function from the state to the state and its result.
-- A call that has to sleep ends in a value of its own (`sleeps`, `waits`, `switches`), and so does
-- a panic; a read or write past the end of an array is one too (`none` in ResourceMap, `overrun`
-- in Callout), but for the table of escapes of UNIX_canon, where what is behind its end is a
-- parameter. Machine integers are natural numbers with the wrap-around of the field written out
-- where the code can reach it.
--
-- Abstract views. A character list stands for the list of its characters (Clist.Chain), a map for
-- the set of free units (ResourceMap.Invariant), the callout table for the list of deadlines in
-- order (Callout.Due), a volume for the list of its free blocks (FreeBlocks.Chain), the addresses
-- of a file for a tree of positions (BlockMap.Position), and the theorems below say what each
-- operation does to that view.
--
-- Bounds and fuel. The loop of UNIX_cinit is given NCLIST rounds, and the calling loop of
-- UNIX_clock NCALL + 1: the loops count the blocks of `cfree` and the entries of `callout`, of
-- which there are no more. UNIX_getblk and UNIX_bflush need a round more than there are delayed
-- writes, UNIX_wakeup two levels of calls, UNIX_issig a round for each signal and one more, the
-- loops of tty.c one for each character and one more, UNIX_memall one for each frame, UNIX_readi
-- and UNIX_writei one for each 512 bytes and three more, UNIX_writep two, and UNIX_iget one for
-- each mounted device on the way; the theorems say that these are enough. All other loops are
-- recursions on a list or on a count.
--
-- Not modelled. Interrupt priorities (spl6, splx): each modelled function runs at a raised
-- priority, so it is one step. Device drivers, trap handling and start-up, whose work is I/O on
-- the host. Swapping, path names and system calls. Messages on the console, those that trace a run
-- included. What a called function does (Callout), whether a device reports an error (FreeBlocks),
-- the strategy routine of a driver (Buffers) and the start of its output (Terminals) are
-- parameters, and so are the faults of copies to a process and the character devices (FileIo) and
-- UNIX_xrele (Inodes.Access). That UNIX_readi, UNIX_writei, UNIX_iget and UNIX_iput sleep in the
-- buffer cache is left out in FileIo, Pipes and Inodes: such a call is one step.
pub mod Prelude
pub mod ResourceMap
pub mod Clist
pub mod Callout
pub mod FreeBlocks
pub mod BlockMap
pub mod OpenFiles
pub mod DiskQueue
pub mod Buffers
pub mod Processes
pub mod Terminals
pub mod Frames
pub mod Inodes
pub mod FileIo
pub mod Pipes

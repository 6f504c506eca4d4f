-- ===== src/Lib.antt =====
-- Verification of the programs of the Operating-System-Homework repository.
--
-- The repository holds one program per topic of an operating systems course; they do not call each
-- other. Each top module of this library models one of them, and its child modules prove what the
-- program promises:
--
-- - Disk: Labweek18/HDD_scheduling.c, the disk head. FCFS, SSTF, SCAN, C_SCAN, LOOK and C_LOOK are
--   `fcfs` and `sstf` of Disk.antt, `scan` and `c_scan` of Disk/Scan.antt, `look` and `c_look` of
--   Disk/Look.antt. A `Drive` holds the number of requests per cylinder, the last stop, the total
--   movement and the stops printed so far. The paths that the head should take are in Disk/Path and
--   Disk/Sweep/Blocks.
-- - Banker: Labweek15/alg.17-1-bankers-5.c, the banker's algorithm. `need`, `allocation` and
--   `available` are the fields of a `Bank`; `safecheck`, `resource_request`, the set-up (`init`) and
--   the command loop (`serve_commands`) of `main` keep their names. What a safe order is, is defined
--   in Banker/Safety, without the algorithm.
-- - Paging: Labweek17/page_replacement.c, FIFO, LRU_stack, LRU_matrix and Second_Chance. The
--   algorithms that replace the page loaded or used the longest ago, by time stamps, are in
--   Paging/Oldest, with a search for resident pages of their own.
-- - Scheduler: Labweek16/scheduler.c, the task queue. `fcfs`, `sjf_pem`, `sjf_not_pem`,
--   `priority_pem` and `priority_not_pem` insert. `add_task` is two steps, `stop_current` and
--   `add_node`; `delete_task` is one; `sched_run_sighand`, which takes no mutex, is one step for each
--   access to the head (`handle`). `Reach` are the states that these come to in any order.
-- - MinHeap: Labweek7/SLList_MinHeap.c, an array that is a linked list and a minimum heap at once,
--   with `insertListAtHead`, `pushHeap`, `popHeap`, `initialHeap`, the searches and the changes, and
--   the run of `main` in MinHeap/Program.
-- - ProducerConsumer: Labweek15/alg.18-6-syn-pc-con-6.{h,c}, alg.18-7-syn-pc-producer-6.c and
--   alg.18-8-syn-pc-consumer-6.c, producers and consumers over a ring in shared memory. `Produce` and
--   `Consume` are the statements of `producer` and `consumer`, one step each; `Step` lets any thread
--   take one, and `Reach` (in ProducerConsumer/Setup, with the prompts of `main`) are the states that
--   come about in any order.
-- - ThreadPool: Labweek15/threadpools.c. `Work` are the statements of `executeTask`, `Add` those of
--   `addTask` and of the loop of `main` that calls it, one access to the pool each; `Step` lets any
--   thread take one.
-- - PageAllocator: Labweek11/lab2/kern/mm/default_pmm.c, the first-fit manager of physical pages, with
--   the names of its functions; `Page` and `FreeArea` are in kern/mm/memlayout.h. PageAllocator/Blocks
--   sees the free list as blocks, and merging as a relation on them.
-- - PageTables: Labweek11/lab2/kern/mm/pmm.c (with pmm.h and mmu.h), page tables over PageAllocator:
--   get_pte, get_page, page_remove, page_insert and boot_map_segment. A Paged memory is the memory of
--   the allocator, the words of every page, the page that holds the directory and the addresses that
--   were flushed. The directory may be its own table for the 4 MB from VPT on, where any change of the
--   directory shows; the theorems are about the addresses outside this window. Counts of references
--   are taken modulo 2 ^ 32.
--   PageTables/Memmap is `page_init`, which hands the areas of the memory map to the allocator.
-- - Prelude: names of the libraries, lists and arrays over the native numbers, Boolean tests,
--   integers, and sums over the threads of a program.
--
-- Mutable C state is a record that an operation takes and returns; a C array is a list or a
-- function of its index; an `int` that the user may type is an integer ℤ, and a count or an index
-- is a native number. -1 as an index or a page is `none`. A linked list with one owner is the
-- sequence of its nodes, except in MinHeap, where the links are indices and are kept. But for
-- counts of references, `int` does not wrap around in the models: the totals of the disk head are
-- bounded by its path, and amounts and keys are only compared and, in Banker, bounded by the
-- resources.
--
-- Fuel: the search of SSTF has 201 rounds for 200 cylinders, since each round moves at least one
-- of its two variables away from the head; a sweep has 201 rounds too, one more than the cylinders
-- it passes, and the requests of one cylinder are served by a loop of as many rounds; the clock of
-- Second_Chance has six rounds for five frames, since one round clears one bit; a node of the heap
-- of n nodes sinks or rises at most n times, and a search visits at most n + 1 levels.
-- The theorems state results, so they show that the fuel is enough. The programs with threads have no
-- fuel: their runs are sequences of steps of any length and order.
--
-- Not modelled: what is printed only for the reader, the release of memory, sleeping and
-- the delivery of signals (Scheduler records what is sent), the overflow of `name` by `strcpy`,
-- and the write of `popHeap` to `list[-1]` for a heap that is not empty but has no head.
-- The teaching kernels in Labweek1 and Labweek11 are built on uCore; its library and drivers, and
-- the short demonstrations of system calls in the other folders, are left out.
pub mod Prelude
pub mod Disk
pub mod Banker
pub mod Paging
pub mod Scheduler
pub mod MinHeap
pub mod ProducerConsumer
pub mod ThreadPool
pub mod PageAllocator
pub mod PageTables

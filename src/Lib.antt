-- ===== src/Lib.antt =====
-- A software transactional memory (394984/, an implementation of TL2 in C++) and the program that
-- exercises it (grading/), with the reference implementation (reference/) and the example programs
-- (sync-examples/) of its course.
--
-- Process models threads: a program is a tree of atomic actions, run alone (`run`) or beside other
-- threads in any order of turns (`interleave`). Process/Rely has the rule by which what each thread
-- keeps by itself holds of all interleavings, and Process/Turns that enough turns end a thread
-- without loops. Process/Blocking has threads whose actions may have to wait, on a lock or in a
-- loop, with the same rule (Process/Blocking/Triples: for the parts of a thread one after the
-- other), and Process/Blocking/Progress the end of two threads that never both wait, and
-- Process/Blocking/Alone that of threads that run one after the other. Process/Totals sums over
-- threads.
--
-- Stm models 394984/tm.cpp and 394984/data-structures.cpp. Stm/State has the shared state and its
-- actions: the version clock, the words of the locks, the bytes of shared memory, the region's list
-- of segments, and the environment's choices (which weak exchanges fail for no reason, what the
-- allocator returns). Stm/Lock is VersionedWriteLock, Stm/Region tm_create and tm_destroy,
-- Stm/Transaction the transaction and tm_begin, Stm/Access tm_read, tm_write, tm_alloc and tm_free,
-- Stm/Commit tm_end, Stm/Client the threads that call them (include/tm.hpp). A load, store or
-- exchange of an atomic is one action, and a memcpy of shared memory one action for each byte.
-- Stm/Clock has the invariant of the version clock, Stm/Alone what each call does when no other
-- thread comes in between, Stm/Races two interleavings that break snapshot isolation.
--
-- Grading models grading/transactional.hpp, workload.hpp, and parts of common.hpp and grading.cpp.
-- Grading/Shared has the closures of transactions as programs over typed cells, and what a closure
-- does alone (`apply`); Grading/Transaction is Transaction and transactional over a library that is
-- a parameter, and Grading/Transaction/Protocol a monitor of the calls of that library;
-- Grading/Bank has the transactions of WorkloadBank, with the loop of check over all workers in
-- Grading/Bank/Countdown and run, over the choices that it draws, in Grading/Bank/Worker.
-- Grading/Bank/Audit has the list of segments by its contents, Grading/Bank/Layout with addresses
-- and what a store or a change at its end makes of it, Grading/Bank/Short the search of short_tx,
-- Grading/Bank/Alloc the loop of alloc_tx with its removals and creations. Grading/Chrono,
-- Grading/Barrier and Grading/Sync are the clock, the barrier of check, and how the master and the
-- workers start and end a run; Grading/Measure is the master of measure, over all runs, and
-- Grading/Main has the timeouts and the exit status of main. The loops over the segments of a bank,
-- of transactional and of the spinning threads run on fuel, and answer none without it.
--
-- SyncExamples models sync-examples/: the counters counter1.c to counter4.c, the elections
-- election1.c to election4.c, and the queues procon1.c to procon3.c, each with `main`'s start of
-- the threads and its check at the end, over parameters for RUNS, THREADS and the sizes. The child
-- modules of each have the contract of its threads, what each thread makes of it (Counters/Locked,
-- Counters/Fetched, Elections/Exchange, Elections/Locked, Queues/Producing, Queues/Consuming), and
-- the end of `main` (Ends, Order, Finish; Counters/Lost and Elections/Twice for programs that
-- fail). An `int` is kept by its 32 bits, but for the numbers of threads and rounds.
--
-- Reference models reference/tm.c, the implementation by one lock: Reference has tm_create,
-- tm_destroy, tm_alloc, tm_free and the doubly linked list of segments that they share,
-- Reference/Chain what their writes make of such a list, Reference/Segments the list over many
-- calls, and what is freed at the end. What the allocator answers is an argument of each call.
-- Nodes and the bytes of segments are kept apart, and the alignment that tm_alloc asks for is left
-- to the allocator. tm_destroy runs on fuel, of which more than the number of nodes is enough.
-- Reference/Transactions has tm_begin, tm_end, tm_read and tm_write over reference/shared-lock.c,
-- whose calls may fail, with a history of the transactions that ended, as unlock notes them;
-- Readers and Writers, beneath it, are what a transaction of either kind keeps while others run.
--
-- Words have 64 bits, and what wraps in the source wraps here. Addresses do not wrap. The loop over
-- the words of an access runs on fuel, `size` rounds, which is enough for a positive word size. The
-- unordered containers are lists, in the order in which the code meets their elements. One region
-- is modelled; the critical section under `list_lock` is one action. The buffer of a WriteOperation
-- is its list of bytes, and its allocation does not fail. Memory fences are not modelled: atomics
-- are sequentially consistent. Nor are bounded_run, the workers of measure, the loading of modules,
-- the sources of randomness, procon4.c (which sleeps on a condition variable), the playground and
-- the manual tests.
mod Base
pub mod Process
pub mod Stm
pub mod Grading
pub mod SyncExamples
pub mod Reference

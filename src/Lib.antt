-- ===== src/Lib.antt =====
-- The memory tests of custom-test and the bandwidth benchmark of src, modelled from their source: the
-- chunk-stripe sweep of custom-test/test2-rdma-fin.c, with parts of custom-test/test2-rdma.c and
-- custom-test/test2-rdma3.c that differ, its first version custom-test/test2.c, the multi-turn tests of
-- custom-test/test3-mt.c and custom-test/test4-nowait.c, and of the benchmark src/main.cpp,
-- src/benchmark.cpp, src/numa_affinity.cpp, src/hw_prefetcher.cpp, src/tracing.cpp, `firstTouchData` of
-- src/main_patched.cpp and `collectLatencyBuffers` of src/latency_measure.cpp.
--
-- The sweep fills a store with stamped blocks, one for each request and block number, and measures
-- how fast concurrent reader threads read and verify them. Before it reads, each reader sends one
-- request through a lock-free queue to a thread that simulates a network card, waits for the card's
-- answer, and then for a gate that the main thread opens when all readers are there.
--
-- The benchmark allocates memory on a device or a NUMA node, runs the tests that its mode string names,
-- each with its threads on equal shares of the memory, and writes one line of bandwidths.
--
--   Base    numbers, words, lists, loops and byte memories that the parts share.
--   Args    `struct cfg`, `parse_size`, `parse_u32_arg`, `parse_args`, `checked_mul_u64`. `strtoull` is
--           a parameter; the options that `getopt_long` recognises are a list.
--   Block   `struct block_tag`, `fill_for`, `fill_block`, `verify_block` on a memory of bytes.
--   Grid    a store cut into rows of blocks, and which of them are written.
--   Stripe  the sizes that `main` computes, `block_ptr`, `populate_chunk_stripe`. Uses Args, Block, Grid.
--   Sweep   the read loop of `rdma_reader_thread`, the shared counters of `struct sweep_ctx`, the sweep
--           loop of `main`. Uses Stripe.
--   Turns   test3-mt.c: its command line (Turns.Options), tag, `write_turn`, `reader_thread` and
--           `read_cumulative`. Uses Block.Tagged, Grid and Sweep.
--   Exits   the ways out of `main` in test2.c, and what each has taken and given back.
--   Plain   test2.c, the sweep without a card: `reader_thread`, `run_one_sweep` and `main` as a whole.
--           Plain.Resources is `run_one_sweep` again, as a list of what it does with memory, threads
--           and the gate, for every outcome of its calls. Uses Args, Stripe, Sweep and Exits.
--   Pages   `xaligned_alloc` of test2-rdma-fin.c and test3-mt.c, over `posix_memalign` and `mmap`.
--   Queue   `struct mpsc_queue`, `mpsc_init`, `mpsc_enqueue`, `mpsc_dequeue`. Queue.System lets the
--           shared accesses of the producers and of the consumer interleave one by one; Queue.Legacy is the consumer of test2-rdma.c.
--   Gate    `struct start_gate` and its functions, as steps of the workers and the main thread,
--           who sleep on the condition until a broadcast wakes them.
--   Threads `run_one_sweep`: what it allocates and frees, the threads it creates and joins and how it
--           opens the gate, as a list of events, for every outcome of its allocations and of
--           `pthread_create`.
--   Monitor which lists of such events are right: it follows one resource and one reader thread, and
--           refuses a misuse. Used by Threads, Plain.Resources and Rings.Run.
--   Nic     `rnic_thread`: the times that the card computes, over an interface for `double`, and its
--           loop over the results of `mpsc_dequeue`. Nic.Link is the version of test2-rdma3.c.
--   Phase   The readers up to the card's answer, the queue and the card together: the steps of
--           `rdma_reader_thread` and `rnic_thread` in any interleaving. Uses Queue and Nic.
--   Rings   test4-nowait.c: the card's thread over the rings of DPDK, which are an interface;
--           Rings.Run, `read_rdma` as a list of events for Monitor; Rings.Main, what `main` takes from
--           the system and gives back.
--   Numa    src/numa_affinity.cpp: `parseNumaNodes` (Numa.Nodes), `getCpusFromNumaNodes` and
--           `validateNumaNodes` (Numa.Cpus). `strtol` and the answers of libnuma are parameters.
--   Driver  `main` of src/main.cpp: its arguments; Driver.Modes, the mode string, the tests and the lines
--           of the result file; Driver.Prefetch, src/hw_prefetcher.cpp; Driver.Launch, the checks and
--           what is allocated, set, given back and restored on each way through `main`. Uses Numa. The
--           numbers that the C library reads and whether each call of the system succeeds are parameters.
--   Bench   src/benchmark.cpp: Bench.Chase, the pointer chase; Bench.Stride, the offsets of the stride
--           read; Bench.Blocks, the random and the Zipfian read; Bench.Sequential, a thread's sequential
--           read and write; Bench.Scatter, the random write. Bench.StrideWrite and Bench.Loaded are the
--           stride write and the pointer chase under load, with all their threads in any interleaving.
--           Bench.Touch is `firstTouchData`.
--   Trace   src/tracing.cpp: the merging, cutting and rows of `saveTrace`. `sort` is a parameter.
--
-- Integers are natural numbers with the wrap-around of their width written out, except for counters of
-- loops whose bounds keep them below it. A memory is a function from addresses to bytes, and a pointer into
-- the store is an offset from its start. Shared accesses are taken as sequentially consistent. The sweep
-- loop has fuel, and 32 rounds are enough, since its counter doubles and stays below 2^32. `rnic_thread`
-- runs on the list of the results of its calls. The loop of `main` over the rounds of test2.c has fuel too,
-- and more of it than there are rounds is enough, but for 2^32 - 1 rounds, with which the loop of the
-- source does not end. The card's thread of test4-nowait.c runs for any number of rounds. The loops of the
-- stride tests are counted in `size_t`, and are `none` if they never end, which one more step than their
-- bound decides; the other loops of the benchmark that count up have their bound as fuel, since their steps
-- are at least 1; the sequential loops end with every element done.
--
-- Not modelled: output and clocks; the earlier version test2-rdma2.c, and what test2-rdma.c and
-- test2-rdma3.c hold besides the parts named above, which are the same program in earlier forms; of test3-mt.c what it gives back, since memory of `mmap` is given to `free`; of
-- test4-nowait.c the runs of `read_rdma` after a failed `calloc`, which are undefined, and what it has in
-- common with test3-mt.c; test4.c, which does not compile; of the benchmark the flushing of the cache, the
-- printed progress, the rest of the latency logs and the result directory; the scripts, which are glue.
pub mod Base
pub mod Queue
pub mod Block
pub mod Numa
pub mod Bench
pub mod Trace
pub mod Driver
pub mod Exits
pub mod Args
pub mod Grid
pub mod Stripe
pub mod Gate
pub mod Nic
pub mod Sweep
pub mod Turns
pub mod Threads
pub mod Monitor
pub mod Rings
pub mod Pages
pub mod Phase
pub mod Plain

-- ===== src/Lib.antt =====
-- Verification of tierbuf, a buffer manager in Rust that keeps fixed-size pages in DRAM frames and
-- on slower storage tiers. The paths below are relative to the root of the repository.
--
-- A page handle (`Swip`) is one tagged word that says whether its page is hot, cooling or evicted.
-- A hot or cooling page lives in a frame of the `FrameTable`; a thread pins the frame and takes its
-- latch to use the page. Frames that turn cold wait in the cooling queue, from which they are evicted
-- to a tier within that tier's write budget. A thread that meets an evicted page enters the fault
-- coordinator of the page, whose leader reads it back into a free frame.
--
-- The modules and the code that they model:
--   Prelude: names and lemmas that the others share; `Run` is a call that returns or panics.
--   Swip: crates/tierbuf/src/swip.rs. `SwipInner` is the cell that clones of a handle share; each
--     transition is one compare-and-exchange of its word. Words has the encoding, Machine the state
--     machine over `SwipState`, Refinement that the words implement it, Edges the single calls, Codes
--     the valid states and words as one type.
--   Latch: crates/tierbuf/src/latch.rs. Each atomic access of `HybridLatch` is a function on the
--     word; System interleaves the accesses of any number of threads, Invariant and Safety prove.
--   Heat: crates/tierbuf/src/policy/heat.rs, with the packed pair of crates/tierbuf/src/frame.rs.
--     Decay is about calls in sequence, Rounds about interleaved rounds of their loop.
--   Frame: crates/tierbuf/src/frame.rs. The control word and the metadata of `Frame`; Pins
--     interleaves threads on the control word. Queue states what the crossbeam-queue crate documents
--     of `ArrayQueue`, with a list as an instance; Table models `FrameTable` over it, and Table/Free,
--     Table/Start and Table/Addresses prove its free list, its constructor and the two names of a
--     frame, index and address (also `stable_slice_resident_addr` of crates/tierbuf/src/sys/mod.rs).
--   Cooling: crates/tierbuf/src/cooling.rs, `CoolingQueue`; Fifo relates it to its history.
--   Tier: crates/tierbuf/src/tier. Budget models `WriteBudget` of mod.rs and the update loop of
--     crates/tierbuf/src/atomic.rs; Ticks and Rounds prove. Disk models the transfer loops
--     of file.rs over system calls, File the slots and pages of `FileTier`, Mock the slots and calls
--     of `MockTier` (mock.rs) against an abstract device.
--   Sys: crates/tierbuf/src/sys. Mapping models `AlignedPool` of mmap.rs: Bounds is where its frames
--     are, Bytes what they store.
--   Metrics: crates/tierbuf/src/metrics.rs, `StatsRecorder`. Gate interleaves the updates and
--     snapshots of any number of threads; Steps and Coherence prove.
--   Uring: crates/tierbuf/src/uring.rs, the thread that owns the ring. Identifiers is about
--     `allocate_user_data`, Accounts, Submission, Received and Rounds about the reads in its care.
--   Policy: crates/tierbuf/src/policy. Floats is what the sources use of `f64`; Economic models
--     economic.rs, with the interface of mod.rs, and its Targets prove.
--   Fault: crates/tierbuf/src/pool.rs, `FaultCoordinator`, and the errors of crates/tierbuf/src/lib.rs
--     that it replays. Crowd interleaves threads; Arrivals, Steps and Turns prove; Replay is about
--     the errors.
--   Pool: crates/tierbuf/src/pool.rs, the eviction of a page and its return. Backend
--     states what `TierBackend` of crates/tierbuf/src/tier/mod.rs promises; Eviction is `evict_ticket` from its second check to the
--     release of the frame, with `PageDirectory`; DemandFault is `perform_demand_fault`; Handles has
--     the checks of handles and tickets (`exact_cooling_owner` and others) and `allocate_pid`;
--     Checkout is the guards `FreeFrame` and `OwnedFreeFrame`; Fix is the loops of `fix_shared_with`
--     and `fix_exclusive`, round by round; Prefetch is `prefetch` with its reservations; Cooler is
--     `enqueue_cold_candidates`; Allocate is `allocate`; Background is
--     `background_cooling_step`; Reclaim is the whole of `evict_ticket` around Eviction. WriteBack,
--     Settlement, Exact, Returns, Submissions, Windows, Marks, Fresh, Granted, Refused, Attempts,
--     Ends, Outcomes, Exchange, the modules Promise and Contents and the children of Fix prove.
--   Bench: crates/tierbuf-bench/src/main.rs. Stats is the difference of two snapshots, Latency the
--     sampler and `percentile`, Workload the choice of pages, Worker the loop of `run_worker`; Deltas,
--     Ranks, Reservoir and Counts prove.
--   Each component has its concrete inputs in a module Tests.
--
-- How the code is translated. Numbers are natural numbers, and a wrap-around of a machine word is
-- written out. An atomic access is a function on the word that yields the new word and what the
-- caller sees; a weak exchange takes a flag that makes it fail spuriously. An interleaving is a list
-- of pairs of a thread and an act, over which the model runs by recursion, so that it needs no fuel.
-- Memory is sequentially consistent. A call under a mutex is one step. An `assert!`, `debug_assert!`
-- or `expect` that fails is `panicked`; left out are the `debug_assert!` of the latch releases and
-- those of the slot that the file tier writes, which the invariants of Latch and Tier/File imply. The
-- loops of a transfer take the outcomes of their system
-- calls as a list; `none` is a loop that has not returned when the list ends, and a theorem says
-- which lists are long enough. The compiler's layout of a frame's metadata is a parameter, with its
-- alignment as a hypothesis. The tiers that the manager uses are a parameter too, so that their
-- failures come at any call; and so is the word of a handle at the exchange that ends an eviction.
--
-- The kernel and the callers of the ring thread are a list of what each round meets. The search for
-- an identifier has one more step of fuel than there are reads in flight. What other threads do
-- during a fix or a prefetch is given at the points where they can act. A float is a value of an
-- interface, whose only laws are those of `total_cmp`.
--
-- Not modelled: memory orderings; the rounding of floats; the cost ledger and the export of
-- crates/tierbuf/src/metrics.rs and the constructor of a budget from drive writes per day;
-- preallocation and the system calls of crates/tierbuf/src/sys; the callers of the ring thread; the
-- rest of the buffer manager in crates/tierbuf/src/pool.rs (the loop of `acquire_frame`,
-- the prefetch workers, shutdown); the command line, the output
-- and the threads of the benchmark (crates/tierbuf-bench); scripts and documents around the library.
pub mod Prelude
pub mod Swip
pub mod Latch
pub mod Heat
pub mod Frame
pub mod Cooling
pub mod Tier
pub mod Sys
pub mod Metrics
pub mod Uring
pub mod Fault
pub mod Policy
pub mod Pool
pub mod Bench

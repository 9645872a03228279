-- ===== src/Lib.antt =====
-- GFD moves data from CPU memory to GPU memory on behalf of running GPU kernels: threads of a
-- kernel write copy descriptors into a ring that both sides share, a CPU thread polls the ring,
-- groups the descriptors into batches, and hands the copies to the copy engines through the CUDA
-- driver; completion counters go the other way. This library models the repository's C++ and CUDA
-- code and proves what its parts promise each other.
--
-- Sources and files, paths from the repository's root:
--
--   Base            shared helpers: tests on numbers, lists, flags, loops of a warp
--   Queue           include/gfd/descriptor_queue.h, include/gfd/tiled_queue.h: the ring and its constants
--   Device          include/gfd/device.cuh: write_descriptor, fence_and_commit, ...
--   Tiled           include/gfd/device_primitives.cuh: acquire_tile, submit_chunk, submit_tile, ...
--   Ring            the ring between its producers and polling_loop of src/cpu_polling.cpp, as steps
--   Driver          the CUDA driver calls, and what a sequence of calls guarantees about its copies
--   CopyEngine      include/gfd/copy_engine.h, src/copy_engine.cpp: CopyEngineManager
--   Memory          what a list of copies does to memory, one after the other and at the same time
--   Coalesce        src/batch_processor.cpp: the merge of copies that lie side by side
--   Gather          src/parallel_gather.cpp: the staging of scattered entries, and the worker flags
--   StagingPool     include/gfd/staging_pool.h: the pool of staging buffers
--   Session         include/gfd/warp_spec_session.h, src/warp_spec_session.cpp: WarpSpecSession
--   Scatter         src/batch_processor.cpp: counting scatter
--   Batch           src/batch_processor.cpp: the grouping of a batch by tile or list
--   Poller          src/batch_processor.cpp: process_batch_tiled
--   SgPoller        src/batch_processor.cpp: process_batch_sg
--   SgQueue         include/gfd/sg_task_queue.h, include/gfd/sg_device_primitives.cuh,
--                   include/gfd/sg_warp_spec.cuh, src/sg_warp_spec_session.cpp: scatter-gather lists
--   RadixSort       src/batch_processor.cpp: radix_sort_sg
--   Staging         src/batch_processor.cpp, src/direct_submit.cpp: gathering into a staging buffer, and the runs
--                   that are copied from there
--   ProcessBatch    src/batch_processor.cpp: process_batch and process_batch_no_ce
--   Polling         src/cpu_polling.cpp: polling_loop and its drain, beside the producers of Ring
--   FlushBatch      src/batch_processor.cpp, src/cpu_polling.cpp: flush_batch, poll_tile_events, the idle rounds
--   DirectSubmit    src/direct_submit.cpp: submit_direct
--   Topology        include/gfd/pcie_topology.h: discover_topology and get_exclusive_cores
--   SgBlock         include/gfd/sg_warp_spec.cuh: the transfer warp and the compute warp of a block
--   Kernel          include/gfd/warp_spec.cuh: the views of chunks and tiles that compute warps get
--
-- Machine integers are the native ℕ with the wrap-around written out (add64, mul32 and so on in
-- Queue); counters, addresses and sizes are bounded by hypotheses where a theorem needs no wrap.
-- The lanes of a warp run one after the other in order of lanes, each loop with fuel for as many
-- rounds as there are slots, which is enough since each round moves on by 32 slots. Loops over
-- the bits of a channel mask have fuel for the 32 bits of the mask. The search for a power of two
-- has fuel for 32 doublings, enough for any 32-bit value. Polling loops of the device are
-- modelled by their exit test; the loop of the CPU thread is a machine with one load in each
-- step.
--
-- The CUDA driver is a parameter: a function from the calls so far to the result of the newest
-- one. What a call guarantees about copies is written down once, in Driver/Clock. Memory obtained
-- from the system is a parameter of the staging pool. Fences and atomics are sequentially
-- consistent. Logging, timing, statistics in floating point, the placement of threads and kernel
-- launches and the examples are not modelled.
pub mod Base
pub mod Batch
pub mod Coalesce
pub mod CopyEngine
pub mod Device
pub mod DirectSubmit
pub mod Driver
pub mod FlushBatch
pub mod Gather
pub mod Kernel
pub mod Memory
pub mod Poller
pub mod Polling
pub mod ProcessBatch
pub mod Queue
pub mod RadixSort
pub mod Ring
pub mod Scatter
pub mod Session
pub mod SgBlock
pub mod SgPoller
pub mod SgQueue
pub mod Staging
pub mod StagingPool
pub mod Tiled
pub mod Topology

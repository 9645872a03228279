-- ===== src/Staging.antt =====
-- src/batch_processor.cpp (process_batch) and src/direct_submit.cpp: entries with destinations side by side
-- are gathered into a staging buffer, and copied from there as runs. A staging buffer is memory of
-- its own: no entry reads it.
pub mod Runs
pub mod Whole
pub mod Range
pub mod Buffers
use gfd.Base.{ℕ, ◌+◌, ◌-◌, Bool, true, ltb, leb, ◌==◌, ◌&&◌, if◌then◌else◌, List, [], ◌∷◌}
use gfd.Queue.{add64, sub64}
use gfd.Driver.{SgEntry}
use gfd.Memory.{Memory}
use gfd.Gather.{parallel_gather}

-- Each destination starts where the one before it ends.
unfoldable pub dst_after : SgEntry → List SgEntry → Bool
dst_after prev [] = true
dst_after prev (e ∷ es) = (e.dst == add64 prev.dst prev.size) && dst_after e es

-- Each source starts where the one before it ends.
unfoldable pub src_after : SgEntry → List SgEntry → Bool
src_after prev [] = true
src_after prev (e ∷ es) = (e.src == add64 prev.src prev.size) && src_after e es

-- The destinations follow one another, and all sizes are `entry_size`.
unfoldable pub dst_contiguous : ℕ → ℕ → List SgEntry → Bool
dst_contiguous expected_dst entry_size [] = true
dst_contiguous expected_dst entry_size (e ∷ es) =
    (e.dst == expected_dst)
    && (e.size == entry_size)
    && dst_contiguous (add64 expected_dst entry_size) entry_size es

-- `min_dst` of the entries.
unfoldable pub least_dst : ℕ → List SgEntry → ℕ
least_dst min_dst [] = min_dst
least_dst min_dst (e ∷ es) = least_dst (if ltb e.dst min_dst then e.dst else min_dst) es

-- `max_dst_end` of the entries.
unfoldable pub greatest_end : ℕ → List SgEntry → ℕ
greatest_end max_dst_end [] = max_dst_end
greatest_end max_dst_end (e ∷ es) =
    let end = add64 e.dst e.size in
    greatest_end (if ltb max_dst_end end then end else max_dst_end) es

-- The host memory after a gather into the `size` bytes at `staging`, with one thread after the other:
-- Gather/Parts.antt says what other turns of the threads leave.
unfoldable pub gathered : Memory → ℕ → ℕ → ℕ → List SgEntry → ℕ → Memory
gathered host num_workers staging size entries min_dst a =
    if leb staging a && ltb a (staging + size)
    then parallel_gather host num_workers entries min_dst [] (λ q. host (staging + q)) (a - staging)
    else host a

module _ (cur_buf min_dst : ℕ) where
  unfoldable pub run_of : ℕ → ℕ → SgEntry
  run_of run_start run_size = record {
    dst = run_start;
    src = add64 cur_buf (sub64 run_start min_dst);
    size = run_size;
  }

  -- The loop that joins entries with destinations side by side into runs.
  unfoldable pub merge_runs : ℕ → ℕ → List SgEntry → List SgEntry
  unfolding run_of
  merge_runs run_start run_size [] = run_of run_start run_size ∷ []
  merge_runs run_start run_size (e ∷ es) =
      let longer = merge_runs run_start (add64 run_size e.size) es in
      let next = merge_runs e.dst e.size es in
      if e.dst == add64 run_start run_size then longer else run_of run_start run_size ∷ next

-- ===== src/ProcessBatch.antt =====
-- src/batch_processor.cpp, process_batch: the copies of a batch without tiles, in four ways. One entry, or
-- entries side by side, are copied at once; entries with destinations side by side are gathered in a
-- staging buffer; all others are sorted and merged, and gathered too if many are left.
pub mod Issued
pub mod Staged
pub mod Paths
pub mod NoCe
pub mod Reuse
pub mod Tests
use gfd.Base.{
  ℕ, ◌+◌, ◌-◌, ◌%◌, ◌^◌, Bool, true, false, ltb, leb, ◌==◌, ◌&&◌, ◌||◌, if◌then◌else◌, update, List,
  [], ◌∷◌, length, map,
}
use gfd.Queue.{Descriptor, add64, sub64, mul64, add32}
use gfd.Driver.{Driver, SgEntry, staging_event, event_synchronize}
use gfd.Memory.{Memory}
use gfd.CopyEngine.{Manager, ignore, record_event_on_last_stream}
use gfd.Coalesce.{sum_bytes, coalesce}
use gfd.Batch.{sg_of}
use gfd.Poller.{submit}
use gfd.RadixSort.{radix_sort_sg}
use gfd.Staging.{dst_contiguous, src_after, least_dst, greatest_end, gathered, merge_runs}

abbrev pub staging_threshold : ℕ
staging_threshold = 32

-- The part of CpuPollingThread that process_batch reads and writes. `host` is the memory that the copy
-- engines read, staging buffers included; `staging_inflight_count`, an `int`, is its 32 bits.
pub record BatchPoller : Type 0 where
  pub ce : Manager
  pub host : Memory
  pub active_gather_workers : ℕ
  pub num_staging_bufs : ℕ
  pub staging_buffer_size : ℕ
  pub staging_bufs : ℕ → ℕ
  pub staging_event_pending : ℕ → Bool
  pub staging_cur : ℕ
  pub staging_inflight_count : ℕ
  pub total_bytes_copied : ℕ
  pub descriptors_processed : ℕ
  pub coalesced_entries : ℕ
  pub staging_batches : ℕ
  pub batches_submitted : ℕ

abbrev pub cur_buf : BatchPoller → ℕ
cur_buf p = p.staging_bufs p.staging_cur

unfoldable pub count_batch : ℕ → ℕ → BatchPoller → BatchPoller
count_batch count coalesced p = record p {
  descriptors_processed = add64 p.descriptors_processed count;
  coalesced_entries = add64 p.coalesced_entries coalesced;
  batches_submitted = add64 p.batches_submitted 1;
}

unfoldable pub gather_batch : List SgEntry → ℕ → BatchPoller → BatchPoller
gather_batch es min_dst p = record p {
  host = gathered p.host p.active_gather_workers (cur_buf p) p.staging_buffer_size es min_dst;
}

module _ (drv : Driver) where
  -- A submission whose result is only logged.
  unfoldable pub submit_copies : List SgEntry → BatchPoller → BatchPoller
  submit_copies es p = record p { ce = submit drv es p.ce }

  -- Waits for the copy that was the last to read the current buffer.
  unfoldable pub wait_for_buffer : BatchPoller → BatchPoller
  unfolding ignore
  wait_for_buffer p =
      if p.staging_event_pending p.staging_cur
      then record p {
        ce = (ignore drv (event_synchronize (staging_event p.staging_cur)) p.ce).1;
        staging_event_pending = update p.staging_event_pending p.staging_cur false;
        staging_inflight_count = add32 p.staging_inflight_count (2 ^ 32 - 1);
      }
      else p

  -- The copies out of the buffer, their event, and the step to the next buffer.
  unfoldable pub submit_staged : List SgEntry → BatchPoller → BatchPoller
  submit_staged runs p = record p {
    ce = (record_event_on_last_stream drv (staging_event p.staging_cur) (submit drv runs p.ce)).1;
    staging_event_pending = update p.staging_event_pending p.staging_cur true;
    staging_inflight_count = add32 p.staging_inflight_count 1;
    staging_cur = (p.staging_cur + 1) % p.num_staging_bufs;
    staging_batches = add64 p.staging_batches 1;
  }

  module _ (std_sort : (SgEntry → ℕ) → List SgEntry → List SgEntry) (unset : ℕ → SgEntry) where
    -- The runs of the gathered entries, sorted by destination.
    unfoldable pub runs_of : ℕ → ℕ → List SgEntry → List SgEntry
    runs_of buf min_dst coalesced = elim (radix_sort_sg (λ e. e.dst) std_sort unset coalesced) [
      | [] ↦ []
      | f ∷ fs ↦ merge_runs buf min_dst f.dst f.size fs
    ]

    unfoldable pub stage_coalesced : List SgEntry → ℕ → BatchPoller → BatchPoller
    unfolding runs_of
    stage_coalesced coalesced min_dst p =
        let ready = gather_batch coalesced min_dst (wait_for_buffer p) in
        submit_staged (runs_of (cur_buf p) min_dst coalesced) ready

    -- Many entries go through a staging buffer if their range fits into it.
    unfoldable pub submit_coalesced : List SgEntry → BatchPoller → BatchPoller
    submit_coalesced [] p = p
    submit_coalesced (c ∷ cs) p =
        let min_dst = least_dst c.dst cs in
        let range_size = sub64 (greatest_end (add64 c.dst c.size) cs) min_dst in
        if ltb staging_threshold (length (c ∷ cs)) && ltb 0 p.num_staging_bufs
        then if ltb p.staging_buffer_size range_size || (p.num_staging_bufs == 0)
          then submit_copies (c ∷ cs) p
          else stage_coalesced (c ∷ cs) min_dst p
        else submit_copies (c ∷ cs) p

    unfoldable pub submit_sorted : List SgEntry → BatchPoller → BatchPoller
    unfolding submit_coalesced
    submit_sorted es p =
        let coalesced = coalesce (radix_sort_sg (λ e. e.src) std_sort unset es) in
        count_batch (length es) (length coalesced) (submit_coalesced coalesced p)

    -- Destinations side by side, of one size.
    unfoldable pub submit_contiguous : SgEntry → List SgEntry → BatchPoller → BatchPoller
    submit_contiguous e es p =
        let range_size = mul64 (length (e ∷ es)) e.size in
        if src_after e es
        then count_batch (length (e ∷ es)) 1 (submit_copies (record e { size = range_size } ∷ []) p)
        else if leb range_size p.staging_buffer_size && ltb 0 p.num_staging_bufs
        then (let ready = gather_batch (e ∷ es) e.dst (wait_for_buffer p) in
            let run : SgEntry = record { dst = e.dst; src = cur_buf p; size = range_size } in
            count_batch (length (e ∷ es)) (length (e ∷ es)) (submit_staged (run ∷ []) ready))
        else submit_sorted (e ∷ es) p

    -- flush_batch calls this with a batch that is not empty.
    unfoldable pub process_batch : List Descriptor → BatchPoller → BatchPoller
    process_batch [] p = p
    process_batch (d ∷ []) p =
        let one = record p { total_bytes_copied = add64 p.total_bytes_copied d.size } in
        count_batch 1 1 (submit_copies (sg_of d ∷ []) one)
    process_batch (d ∷ d' ∷ ds) p =
        let e = sg_of d in
        let es = map sg_of (d' ∷ ds) in
        let counted = record p { total_bytes_copied = sum_bytes p.total_bytes_copied (e ∷ es) } in
        if dst_contiguous (add64 e.dst e.size) e.size es && ltb 0 p.num_staging_bufs
        then submit_contiguous e es counted
        else submit_sorted (e ∷ es) counted

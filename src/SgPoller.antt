-- ===== src/SgPoller.antt =====
-- src/batch_processor.cpp, process_batch_sg: the copies of a batch of scatter-gather lists, and the signals
-- that the lists are done.
pub mod Completion
pub mod Tests
use gfd.Base.{
  concat, ℕ, zero, suc, ◌+◌, Bool, true, false, ◌&&◌, if◌then◌else◌, Option, none, some, update,
  List, [], ◌∷◌, length,
}
use gfd.Queue.{Descriptor, add64}
use gfd.Driver.{Driver, SgEntry, signal}
use gfd.CopyEngine.{Manager, wait_completion, make_stream_wait_on_all}
use gfd.Coalesce.{sum_bytes}
use gfd.Batch.{Buckets, no_buckets, count_entries, bucket_entries, clear_buckets}
use gfd.Poller.{for_buckets, submit_groups, signal_each}

abbrev pub max_sg_lists : ℕ
max_sg_lists = 512

-- The part of CpuPollingThread that process_batch_sg reads and writes, with `lists_completed` and
-- `d_list_done` of the queue, which is set. `has_list_done` says whether `d_list_done` is set; its words
-- are written here only by the synchronous copies, the others are on the trace of the manager.
pub record SgPoller : Type 0 where
  pub ce : Manager
  pub bucket_map : ℕ → Option ℕ
  pub tile_signal_buf : Option (ℕ → ℕ)
  pub signal_stream : Bool
  pub has_list_done : Bool
  pub list_done : ℕ → ℕ
  pub lists_completed : ℕ
  pub total_bytes_copied : ℕ
  pub descriptors_processed : ℕ
  pub batches_submitted : ℕ

-- `f[ids[b]] = 1` for the active lists.
unfoldable pub mark_lists : List ℕ → (ℕ → ℕ) → ℕ → ℕ
mark_lists [] f = f
mark_lists (k ∷ ks) f = mark_lists ks (update f k 1)

module _ (drv : Driver) (done_address buf_address : ℕ → ℕ) where
  -- The signal stream waits for the copies; without a buffer for the values no signal is sent.
  unfoldable pub signal_on_stream : List ℕ → SgPoller → SgPoller
  unfolding mark_lists
  signal_on_stream ids p =
      let waiting = (make_stream_wait_on_all drv signal p.ce).1 in
      record p {
        ce = elim p.tile_signal_buf [
          | none ↦ waiting
          | some buf ↦ signal_each drv done_address buf_address ids waiting
        ];
        tile_signal_buf = elim p.tile_signal_buf [
          | none ↦ none
          | some buf ↦ some (mark_lists ids buf)
        ];
        lists_completed = add64 p.lists_completed (length ids);
      }

  unfoldable pub signal_from_host : List ℕ → SgPoller → SgPoller
  unfolding mark_lists
  signal_from_host ids p = record p {
    ce = (wait_completion drv p.ce).1;
    list_done = if p.has_list_done then mark_lists ids p.list_done else p.list_done;
    lists_completed = add64 p.lists_completed (length ids);
  }

  unfoldable pub process_batch_sg : (ℕ → Descriptor) → List Descriptor → SgPoller → SgPoller
  process_batch_sg unset batch p =
      let s = count_entries max_sg_lists batch (no_buckets p.bucket_map) in
      let n = s.num_active in
      let groups = for_buckets n (bucket_entries max_sg_lists batch unset s) in
      let copied = record p {
        bucket_map = clear_buckets n s.ids s.bucket_map;
        ce = submit_groups drv groups p.ce;
        total_bytes_copied = add64 p.total_bytes_copied (sum_bytes 0 (concat groups));
      } in
      let signalled =
        if p.has_list_done && p.signal_stream
        then signal_on_stream (for_buckets n s.ids) copied
        else signal_from_host (for_buckets n s.ids) copied in
      record signalled {
        descriptors_processed = add64 signalled.descriptors_processed (length batch);
        batches_submitted = add64 signalled.batches_submitted n;
      }

-- ===== src/ProcessBatch/Tests.antt =====
-- Batches that take each of the ways of process_batch.
use gfd.Base.{
  ℕ, ◌+◌, ◌*◌, ◌<◌, ◌≤◌, ◌≡◌, refl, sym, ◌∙◌, true, false, arith, inl, inr, List, [], ◌∷◌, map,
}
use gfd.Queue.{Descriptor}
use gfd.Driver.{SgEntry}
use gfd.Driver.Clock.{copies}
use gfd.Memory.{copied_all}
use gfd.Memory.Cover.{covers, In, NoClash}
use gfd.Coalesce.Sound.{InRange, no_entry, and_entry}
use gfd.CopyEngine.Tests.{ready, ready-IsValid, no_error, no_error-Succeeds}
use gfd.Batch.{sg_of}
use gfd.RadixSort.Entries.{KeepsEntries}
use gfd.ProcessBatch.{BatchPoller, process_batch}
use gfd.Staging.{dst_contiguous, src_after}
use gfd.ProcessBatch.{submit_contiguous, count_batch, submit_staged, gather_batch, wait_for_buffer}
use gfd.CopyEngine.{
  record_event_on_last_stream, submit_scatter_gather, unpinned, check, distribute, submit_few,
  copy_on, record_all, set_bits,
}
use gfd.ProcessBatch.Staged.{IsReady, Issued}
use gfd.ProcessBatch.NoCe.{process_batch_no_ce, process_batch_no_ce-copied}
use gfd.ProcessBatch.Paths.{process_batch-Issued}

abbrev pub token : ℕ → ℕ → Descriptor
token from to = record {
  src_addr = from;
  dst_addr = to;
  size = 16;
  flags = 0;
  user_data = 0;
  sequence = 0;
}

-- Two buffers of 64 bytes, at 4096 and 8192.
abbrev pub idle : BatchPoller
idle = record {
  ce = ready;
  host = λ a. a;
  active_gather_workers = 1;
  num_staging_bufs = 2;
  staging_buffer_size = 64;
  staging_bufs = λ b. 4096 * (b + 1);
  staging_event_pending = λ b. false;
  staging_cur = 0;
  staging_inflight_count = 0;
  total_bytes_copied = 0;
  descriptors_processed = 0;
  coalesced_entries = 0;
  staging_batches = 0;
  batches_submitted = 0;
}

idle-IsReady : IsReady idle
idle-IsReady = record {
  valid = ready-IsValid;
  ready = refl;
  current = λ h. omega arith;
  room = λ b h. omega arith;
}

abbrev pub no_sort : (SgEntry → ℕ) → List SgEntry → List SgEntry
no_sort key_fn xs = xs

no_sort-KeepsEntries : KeepsEntries no_sort
no_sort-KeepsEntries key_fn xs = record { there = λ e m. m; back = λ e m. m }

abbrev pub unset_entry : ℕ → SgEntry
unset_entry i = record { dst = 0; src = 0; size = 0 }

-- Destinations side by side, sources apart: one copy out of the first buffer.
abbrev scattered : List Descriptor
scattered = token 100 0 ∷ token 500 16 ∷ []

scattered_staged :
    copies (process_batch no_error no_sort unset_entry scattered idle).ce.trace
    ≡ record { dst = 0; src = 4096; size = 32 } ∷ []
unfolding process_batch dst_contiguous submit_contiguous src_after count_batch submit_staged
    record_event_on_last_stream submit_scatter_gather gather_batch wait_for_buffer unpinned check
    distribute submit_few copy_on record_all set_bits
scattered_staged = refl

abbrev scattered_range : (from to : ℕ) → from < 1000 → to < 1000 → InRange (sg_of (token from to))
scattered_range from to h k = record { dst_ends = omega arith; src_ends = omega arith }

scattered-NoClash : NoClash (map sg_of scattered)
unfolding covers
scattered-NoClash e f p (inl a) (inl b) h k = a ∙ sym b
scattered-NoClash e f p (inl a) (inr (inl b)) h k = absurd (ground (arith, a, b, h, k))
scattered-NoClash e f p (inr (inl a)) (inl b) h k = absurd (ground (arith, a, b, h, k))
scattered-NoClash e f p (inr (inl a)) (inr (inl b)) h k = a ∙ sym b
scattered-NoClash e f p (inr (inr a)) m h k = absurd a
scattered-NoClash e f p m (inr (inr b)) h k = absurd b

process_batch-Issued_example :
    Issued (map sg_of scattered) idle (process_batch no_error no_sort unset_entry scattered idle)
process_batch-Issued_example =
    process_batch-Issued no_error no_error-Succeeds no_sort no_sort-KeepsEntries unset_entry
      scattered idle idle-IsReady
      (and_entry (scattered_range 100 0 (omega arith) (omega arith))
        (and_entry (scattered_range 500 16 (omega arith) (omega arith)) no_entry))
      scattered-NoClash

-- Both entries read below 1000 and write above.
abbrev moved_up : List Descriptor
moved_up = token 500 2000 ∷ token 100 2016 ∷ []

moved_up-NoClash : NoClash (map sg_of moved_up)
unfolding covers
moved_up-NoClash e f p (inl a) (inl b) h k = a ∙ sym b
moved_up-NoClash e f p (inl a) (inr (inl b)) h k = absurd (ground (arith, a, b, h, k))
moved_up-NoClash e f p (inr (inl a)) (inl b) h k = absurd (ground (arith, a, b, h, k))
moved_up-NoClash e f p (inr (inl a)) (inr (inl b)) h k = a ∙ sym b
moved_up-NoClash e f p (inr (inr a)) m h k = absurd a
moved_up-NoClash e f p m (inr (inr b)) h k = absurd b

moved_up_writes : (e : SgEntry) (p : ℕ) → In e (map sg_of moved_up) → covers e p ≡ true → 2000 ≤ p
unfolding covers
moved_up_writes e p (inl a) h = ground (arith, a, h)
moved_up_writes e p (inr (inl a)) h = ground (arith, a, h)
moved_up_writes e p (inr (inr a)) h = absurd a

moved_up_reads : (f : SgEntry) → In f (map sg_of moved_up) → f.src + f.size < 1000
moved_up_reads f (inl a) = rw a (omega arith)
moved_up_reads f (inr (inl a)) = rw a (omega arith)
moved_up_reads f (inr (inr a)) = absurd a

process_batch_no_ce-copied_example :
    (process_batch_no_ce no_sort moved_up idle).host
    ≡ copied_all idle.host (map sg_of moved_up) idle.host
process_batch_no_ce-copied_example =
    process_batch_no_ce-copied no_sort moved_up idle no_sort-KeepsEntries
      (λ e f p m n h lo hi. absurd (omega (arith, moved_up_writes e p m h, moved_up_reads f n)))
      moved_up-NoClash

-- ===== src/FlushBatch.antt =====
-- src/batch_processor.cpp, flush_batch and poll_tile_events, and the idle rounds and the end of
-- polling_loop in src/cpu_polling.cpp: which way a batch takes, and what is signalled for it when.
pub mod Progress
pub mod Signals
pub mod Tests
use gfd.Base.{
  ℕ, zero, suc, ◌+◌, ◌-◌, ◌%◌, ◌/◌, ◌^◌, Bool, true, false, ltb, leb, ◌==◌, ◌&&◌, not,
  if◌then◌else◌, Option, none, some, update, List, [], ◌∷◌, ◌++◌, length,
}
use gfd.Queue.{Descriptor, max_tiles, flag_last_in_tile, add64}
use gfd.Driver.{Driver, SgEntry, tile_event, event_create}
use gfd.CopyEngine.{Manager, ignore, record_event_on_last_stream, wait_completion, unpin_context}
use gfd.Batch.{id_of}
use gfd.Poller.{Poller, process_batch_tiled}
use gfd.SgPoller.{SgPoller, process_batch_sg}
use gfd.ProcessBatch.{BatchPoller, process_batch}
use gfd.ProcessBatch.NoCe.{process_batch_no_ce}
use gfd.Polling.{has_any}

abbrev pub max_pending_tile_events : ℕ
max_pending_tile_events = 32

abbrev pub tile_marker_flags : ℕ
tile_marker_flags = 12

pub record PendingTileEvent : Type 0 where
  pub created : Bool
  pub done_value : ℕ
  pub tile_ids : List ℕ

-- CpuPollingThread, around the part that process_batch uses. `tile_done` are the words of
-- `d_tile_chunk_done` if `has_device_signals`, else of `tile_chunk_done`, as the CPU writes them.
pub record CpuPoller : Type 0 where
  pub base : BatchPoller
  pub use_ce : Bool
  pub has_tiled_queue : Bool
  pub has_sg_queue : Bool
  pub tile_progress : ℕ → ℕ
  pub tile_signal_buf : Option (ℕ → ℕ)
  pub has_device_signals : Bool
  pub signal_stream : Bool
  pub tile_buckets : ℕ → Option ℕ
  pub list_buckets : ℕ → Option ℕ
  pub tile_done : ℕ → ℕ
  pub has_list_done : Bool
  pub list_done : ℕ → ℕ
  pub lists_completed : ℕ
  pub done_idx : ℕ
  pub has_async_dma : Bool
  pub latest_async_read : ℕ
  pub pending_tile_events : ℕ → PendingTileEvent
  pub tile_event_head : ℕ
  pub tile_event_tail : ℕ
  pub tile_events_inflight : ℕ

-- The parts that process_batch_tiled and process_batch_sg work on.
abbrev pub tiled_part : CpuPoller → Poller
tiled_part p = record {
  ce = p.base.ce;
  tile_progress = p.tile_progress;
  tile_signal_buf = p.tile_signal_buf;
  has_device_signals = p.has_device_signals;
  signal_stream = p.signal_stream;
  bucket_map = p.tile_buckets;
  total_bytes_copied = p.base.total_bytes_copied;
  descriptors_processed = p.base.descriptors_processed;
  batches_submitted = p.base.batches_submitted;
}

abbrev pub with_tiled_part : Poller → CpuPoller → CpuPoller
with_tiled_part q p = record p {
  base = record (p.base) {
    ce = q.ce;
    total_bytes_copied = q.total_bytes_copied;
    descriptors_processed = q.descriptors_processed;
    batches_submitted = q.batches_submitted;
  };
  tile_progress = q.tile_progress;
  tile_signal_buf = q.tile_signal_buf;
  tile_buckets = q.bucket_map;
}

abbrev pub sg_part : CpuPoller → SgPoller
sg_part p = record {
  ce = p.base.ce;
  bucket_map = p.list_buckets;
  tile_signal_buf = p.tile_signal_buf;
  signal_stream = p.signal_stream;
  has_list_done = p.has_list_done;
  list_done = p.list_done;
  lists_completed = p.lists_completed;
  total_bytes_copied = p.base.total_bytes_copied;
  descriptors_processed = p.base.descriptors_processed;
  batches_submitted = p.base.batches_submitted;
}

abbrev pub with_sg_part : SgPoller → CpuPoller → CpuPoller
with_sg_part q p = record p {
  base = record (p.base) {
    ce = q.ce;
    total_bytes_copied = q.total_bytes_copied;
    descriptors_processed = q.descriptors_processed;
    batches_submitted = q.batches_submitted;
  };
  list_buckets = q.bucket_map;
  tile_signal_buf = q.tile_signal_buf;
  list_done = q.list_done;
  lists_completed = q.lists_completed;
}

abbrev pub is_some : {A : Type 0} → Option A → Bool
is_some none = false
is_some (some a) = true

abbrev pub issued : ℕ → CpuPoller → CpuPoller
issued cur_read p = record p { has_async_dma = true; latest_async_read = cur_read }

abbrev pub is_last : Descriptor → Bool
is_last d = has_any d.flags flag_last_in_tile

-- `tile_counts_local[t]`
unfoldable pub count_tile : ℕ → List Descriptor → ℕ
count_tile t [] = 0
count_tile t (d ∷ ds) = (if id_of d == t then 1 else 0) + count_tile t ds

-- What the loop over the last entries of tiles works on: the counts still to be added, the progress, and
-- the tiles of the event.
pub record Marks : Type 0 where
  pub counts : ℕ → ℕ
  pub progress : ℕ → ℕ
  pub tile_ids : List ℕ

abbrev pub mark_one : ℕ → Marks → Marks
mark_one t m = record m {
  progress = update m.progress t (add64 (m.progress t) (m.counts t));
  counts = update m.counts t 0;
  tile_ids = m.tile_ids ++ t ∷ [];
}

unfoldable pub mark_tiles : List Descriptor → Marks → Marks
mark_tiles [] m = m
mark_tiles (d ∷ ds) m = mark_tiles ds (
    if is_last d && ltb (length m.tile_ids) max_tiles && ltb (id_of d) max_tiles
    then mark_one (id_of d) m
    else m)

-- One entry of the loop of the ways that do not wait for an event.
unfoldable pub signal_entry : Descriptor → CpuPoller → CpuPoller
signal_entry d p =
    let t = id_of d in
    let value = add64 (p.tile_progress t) 1 in
    if ltb t max_tiles
    then record p {
      tile_progress = update p.tile_progress t value;
      tile_done = if is_last d then update p.tile_done t value else p.tile_done;
    }
    else p

unfoldable pub signal_entries : List Descriptor → CpuPoller → CpuPoller
unfolding signal_entry
signal_entries [] p = p
signal_entries (d ∷ ds) p = signal_entries ds (signal_entry d p)

-- `f[t] = progress[t]` for the tiles of an event.
unfoldable pub publish_tiles : List ℕ → (ℕ → ℕ) → (ℕ → ℕ) → ℕ → ℕ
publish_tiles [] progress done = done
publish_tiles (t ∷ ts) progress done = publish_tiles ts progress (update done t (progress t))

-- The signals of the oldest event, which leaves the ring.
unfoldable pub publish_event : CpuPoller → CpuPoller
unfolding publish_tiles
publish_event p =
    let pe = p.pending_tile_events p.tile_event_tail in
    record p {
      tile_done = publish_tiles pe.tile_ids p.tile_progress p.tile_done;
      done_idx = if ltb p.done_idx pe.done_value then pe.done_value else p.done_idx;
      tile_event_tail = (p.tile_event_tail + 1) % max_pending_tile_events;
      tile_events_inflight = p.tile_events_inflight - 1;
    }

-- `ready` says for which slots cuEventQuery gives something else than CUDA_ERROR_NOT_READY.
unfoldable pub poll_left : (ℕ → Bool) → ℕ → CpuPoller → CpuPoller
unfolding publish_event
poll_left ready zero p = p
poll_left ready (suc n) p =
    let done = publish_event p in
    let rest =
      poll_left ready n (record done { has_async_dma = ltb 0 done.tile_events_inflight }) in
    if ready p.tile_event_tail then rest else p

-- Each round takes one event off the ring.
unfoldable pub poll_tile_events : (ℕ → Bool) → CpuPoller → CpuPoller
unfolding poll_left
poll_tile_events ready p = poll_left ready p.tile_events_inflight p

-- The end of polling_loop signals all events, in the words of `tile_chunk_done` alone.
unfoldable pub publish_left : ℕ → CpuPoller → CpuPoller
unfolding publish_event
publish_left zero p = p
publish_left (suc n) p =
    let done = publish_event p in
    publish_left n
      (record done { tile_done = if p.has_device_signals then p.tile_done else done.tile_done })

-- A batch without tile signals from the copy engine; its event, if it has tile markers.
unfoldable pub push_event : Driver → List Descriptor → ℕ → CpuPoller → CpuPoller
unfolding mark_tiles count_tile ignore
push_event drv batch cur_read p =
    let slot = p.tile_event_head in
    let pe = p.pending_tile_events slot in
    let created : Manager =
      if pe.created then p.base.ce else (ignore drv (event_create (tile_event slot)) p.base.ce).1 in
    let m =
      mark_tiles batch
        (record { counts = λ t. count_tile t batch; progress = p.tile_progress; tile_ids = [] }) in
    record p {
      base = record (p.base) { ce = (record_event_on_last_stream drv (tile_event slot) created).1 };
      tile_progress = m.progress;
      pending_tile_events =
          update p.pending_tile_events slot
            (record { created = true; done_value = cur_read; tile_ids = m.tile_ids });
      tile_event_head = (slot + 1) % max_pending_tile_events;
      tile_events_inflight = p.tile_events_inflight + 1;
    }

-- process_batch always reports asynchronous copies.
unfoldable pub flush_global :
    Driver
    → ((SgEntry → ℕ) → List SgEntry → List SgEntry)
    → (ℕ → SgEntry)
    → List Descriptor
    → Bool
    → ℕ
    → CpuPoller
    → CpuPoller
flush_global drv std_sort unset_entry batch marked cur_read p =
    let sent =
      issued cur_read (record p { base = process_batch drv std_sort unset_entry batch p.base }) in
    if marked then push_event drv batch cur_read sent else sent

unfoldable pub flush_no_ce :
    ((SgEntry → ℕ) → List SgEntry → List SgEntry)
    → List Descriptor
    → Bool
    → ℕ
    → CpuPoller
    → CpuPoller
unfolding signal_entries
flush_no_ce std_sort batch marked cur_read p =
    let copied = record p {
      base = process_batch_no_ce std_sort batch p.base;
      done_idx = cur_read;
    } in
    if marked then signal_entries batch copied else copied

module _ (drv : Driver) (done_address buf_address list_done_address list_buf_address : ℕ → ℕ)
    (std_sort : (SgEntry → ℕ) → List SgEntry → List SgEntry) (unset : ℕ → Descriptor)
    (unset_entry : ℕ → SgEntry) where
  unfoldable pub flush_tiled : List Descriptor → ℕ → CpuPoller → CpuPoller
  flush_tiled batch cur_read p = issued cur_read (
      with_tiled_part (process_batch_tiled drv done_address buf_address unset batch (tiled_part p))
        p)

  unfoldable pub flush_sg : List Descriptor → ℕ → CpuPoller → CpuPoller
  flush_sg batch cur_read p = issued cur_read (
      with_sg_part (process_batch_sg drv list_done_address list_buf_address unset batch (sg_part p))
        p)

  unfoldable pub flush_batch : List Descriptor → ℕ → ℕ → CpuPoller → CpuPoller
  flush_batch [] or_flags cur_read p = p
  flush_batch (d ∷ ds) or_flags cur_read p =
      let batch = d ∷ ds in
      let marked = p.has_tiled_queue && has_any or_flags tile_marker_flags in
      if p.use_ce
      then if p.has_sg_queue && has_any or_flags flag_last_in_tile
        then flush_sg batch cur_read p
        else if p.has_tiled_queue && is_some p.tile_signal_buf
        then flush_tiled batch cur_read p
        else flush_global drv std_sort unset_entry batch marked cur_read p
      else flush_no_ce std_sort batch marked cur_read p

-- The wait before staging buffers are counted as free: `staging_inflight_count_` is an `int`.
unfoldable pub wait_for_staging : Driver → CpuPoller → CpuPoller
wait_for_staging drv p =
    if ltb 0 p.base.staging_inflight_count && ltb p.base.staging_inflight_count (2 ^ 31)
    then record p {
      base = record (p.base) { ce = (wait_completion drv p.base.ce).1; staging_inflight_count = 0 };
    }
    else p

-- The wait for all copies, after which `done_idx` says so.
unfoldable pub wait_for_copies : Driver → CpuPoller → CpuPoller
wait_for_copies drv p =
    if p.has_async_dma
    then record p {
      base = record (p.base) { ce = (wait_completion drv p.base.ce).1 };
      done_idx = p.latest_async_read;
      has_async_dma = false;
    }
    else p

-- A round of the loop that finds no entry and holds no batch, with one poll of the tile events.
unfoldable pub idle_round : Driver → (ℕ → Bool) → CpuPoller → CpuPoller
unfolding poll_tile_events wait_for_staging wait_for_copies
idle_round drv ready p =
    if ltb 0 p.tile_events_inflight
    then poll_tile_events ready p
    else if p.has_async_dma
    then wait_for_copies drv (wait_for_staging drv p)
    else p

-- What follows the drain: all events are signalled, all copies waited for, the context unpinned.
unfoldable pub finish_copies : Driver → CpuPoller → CpuPoller
unfolding publish_left wait_for_staging wait_for_copies
finish_copies drv p =
    let signalled =
      if ltb 0 p.tile_events_inflight
      then (let waited = record p {
        base = record (p.base) { ce = (wait_completion drv p.base.ce).1 };
      } in
          record (publish_left p.tile_events_inflight waited) { has_async_dma = false })
      else p in
    let waited = wait_for_copies drv (wait_for_staging drv signalled) in
    if waited.use_ce
    then record waited { base = record (waited.base) { ce = (unpin_context drv waited.base.ce).1 } }
    else waited

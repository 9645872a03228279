-- ===== src/FlushBatch/Tests.antt =====
-- Batches of a tile on the ways of flush_batch that do not signal from the copy engine.
use gfd.Base.{
  ℕ, ◌+◌, ◌*◌, ◌≡◌, refl, true, false, arith, none, inl, inr, [], ◌∷◌, if◌then◌else◌, ◌==◌,
}
use gfd.Queue.{Descriptor}
use gfd.CopyEngine.Tests.{no_error}
use gfd.ProcessBatch.Tests.{idle, no_sort, unset_entry}
use gfd.Polling.{has_any}
use gfd.FlushBatch.{
  CpuPoller, PendingTileEvent, flush_batch, poll_tile_events, count_tile, tile_marker_flags,
}
use gfd.FlushBatch.Signals.{IsGlobal, early_signal, no_ce-tile_progress}

-- An entry of tile 7.
abbrev of_tile : ℕ → ℕ → Descriptor
of_tile to flags = record {
  src_addr = 100 + 32 * to;
  dst_addr = to;
  size = 16;
  flags = flags;
  user_data = 7 * 4294967296;
  sequence = 0;
}

abbrev no_event : PendingTileEvent
no_event = record { created = false; done_value = 0; tile_ids = [] }

-- Without a buffer for the signals of the tiles.
abbrev global : CpuPoller
global = record {
  base = idle;
  use_ce = true;
  has_tiled_queue = true;
  has_sg_queue = false;
  tile_progress = λ t. 0;
  tile_signal_buf = none;
  has_device_signals = false;
  signal_stream = false;
  tile_buckets = λ t. none;
  list_buckets = λ t. none;
  tile_done = λ t. 0;
  has_list_done = false;
  list_done = λ t. 0;
  lists_completed = 0;
  done_idx = 0;
  has_async_dma = false;
  latest_async_read = 0;
  pending_tile_events = λ s. no_event;
  tile_event_head = 0;
  tile_event_tail = 0;
  tile_events_inflight = 0;
}

global-IsGlobal : IsGlobal global
global-IsGlobal = record { copies = refl; tiled = refl; no_lists = refl; no_buffer = refl }

early_signal_example :
    let flush =
      flush_batch no_error
        (λ t. 8 * t)
        (λ t. 9000 + 8 * t)
        (λ t. 0)
        (λ t. 0)
        no_sort
        (λ i. of_tile 0 0)
        unset_entry in
    let q =
      poll_tile_events
        (λ s. s == 0)
        (flush (of_tile 64 4 ∷ []) 4 3 (flush (of_tile 0 0 ∷ of_tile 32 4 ∷ []) 4 2 global)) in
    (q.tile_done 7 ≡ 0 + 2 + 1) × (q.tile_events_inflight ≡ 1)
unfolding count_tile
early_signal_example =
    early_signal no_error (λ t. 8 * t) (λ t. 9000 + 8 * t) (λ t. 0) (λ t. 0) no_sort
      (λ i. of_tile 0 0) unset_entry (of_tile 0 0) (of_tile 64 4) (of_tile 32 4 ∷ []) [] 4 4 2 3 7
      (λ s. s == 0) global global-IsGlobal refl refl (omega arith) (omega arith)
      (inr (inl (refl, refl))) (inl (refl, refl)) (omega arith) (omega arith) refl refl
      (omega arith) refl refl

no_ce-tile_progress_example :
    (flush_batch no_error
        (λ t. 8 * t)
        (λ t. 9000 + 8 * t)
        (λ t. 0)
        (λ t. 0)
        no_sort
        (λ i. of_tile 0 0)
        unset_entry
        (of_tile 0 0 ∷ of_tile 32 0 ∷ [])
        0
        2
        (record global { use_ce = false })).tile_progress
      7
    ≡ 0
      + (if has_any 0 tile_marker_flags then count_tile 7 (of_tile 0 0 ∷ of_tile 32 0 ∷ []) else 0)
no_ce-tile_progress_example =
    no_ce-tile_progress no_error (λ t. 8 * t) (λ t. 9000 + 8 * t) (λ t. 0) (λ t. 0) no_sort
      (λ i. of_tile 0 0) unset_entry (of_tile 0 0) (of_tile 32 0 ∷ []) 0 2 7
      (record global { use_ce = false }) refl refl (omega arith) (omega arith)

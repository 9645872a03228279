-- ===== src/Poller.antt =====
-- src/batch_processor.cpp, process_batch_tiled: the copies of a batch, tile by tile, the progress of the
-- tiles, and the signals that follow the copies.
pub mod TileCopies
pub mod Progress
pub mod Tests
use gfd.Base.{
  concat, ℕ, zero, suc, ◌+◌, ◌-◌, ◌*◌, ◌%◌, ◌^◌, min, max, Bool, true, false, ltb, leb, ◌==◌, ◌&&◌,
  if◌then◌else◌, Option, none, some, update, List, [], ◌∷◌, ◌++◌, length, map,
}
use gfd.Queue.{Descriptor, max_tiles, add64, add32}
use gfd.Driver.{Driver, SgEntry, signal, memcpy_htod_async}
use gfd.CopyEngine.{Manager, submit_scatter_gather, make_stream_wait_on_all}
use gfd.Coalesce.{contiguous_after, sum_bytes, group_copies}
use gfd.Batch.{Buckets, no_buckets, count_entries, bucket_entries, clear_buckets}

-- The part of CpuPollingThread that process_batch_tiled reads and writes. `has_device_signals` says
-- whether `d_tile_chunk_done` is set, `signal_stream` whether that stream was created.
pub record Poller : Type 0 where
  pub ce : Manager
  pub tile_progress : ℕ → ℕ
  pub tile_signal_buf : Option (ℕ → ℕ)
  pub has_device_signals : Bool
  pub signal_stream : Bool
  pub bucket_map : ℕ → Option ℕ
  pub total_bytes_copied : ℕ
  pub descriptors_processed : ℕ
  pub batches_submitted : ℕ

-- `f(b)` for the buckets below `n`, in order.
abbrev pub for_buckets : {A : Type 0} → ℕ → (ℕ → A) → List A
for_buckets zero f = []
for_buckets (suc n) f = for_buckets n f ++ f n ∷ []

module _ (drv : Driver) where
  -- The result of a submission is not looked at.
  abbrev pub submit : List SgEntry → Manager → Manager
  submit es m = (submit_scatter_gather drv es m).1

  unfoldable pub submit_groups : List (List SgEntry) → Manager → Manager
  submit_groups [] m = m
  submit_groups (g ∷ gs) m = submit_groups gs (submit (group_copies g) m)

  -- One copy if all entries of all tiles are contiguous, else the copies of each tile.
  unfoldable pub submit_tiles : List SgEntry → List (List SgEntry) → Manager → Manager
  submit_tiles [] groups m = submit_groups groups m
  submit_tiles (e ∷ es) groups m =
      if ltb 1 (length (e ∷ es)) && contiguous_after e es
      then submit (record e { size = sum_bytes 0 (e ∷ es) } ∷ []) m
      else submit_groups groups m

-- The loop over the active tiles that adds to `tile_progress_` and stores to `tile_signal_buf_`.
unfoldable pub add_progress : ℕ → (ℕ → ℕ) → (ℕ → ℕ) → (ℕ → ℕ) → (ℕ → ℕ) → (ℕ → ℕ) × (ℕ → ℕ)
add_progress zero ids counts progress buf = (progress, buf)
add_progress (suc n) ids counts progress buf =
    let before = add_progress n ids counts progress buf in
    let value = add64 (before.0 (ids n)) (counts n) in
    (update before.0 (ids n) value, update before.1 (ids n) value)

-- `done_address` and `buf_address` are the addresses of a tile's counter and of its signal value.
module _ (drv : Driver) (done_address buf_address : ℕ → ℕ) where
  abbrev pub signal_entry : ℕ → SgEntry
  signal_entry t = record { dst = done_address t; src = buf_address t; size = 8 }

  -- A copy on the signal stream, its result not looked at.
  abbrev pub signal_copy : SgEntry → Manager → Manager
  signal_copy e m = record m { trace = memcpy_htod_async e signal ∷ m.trace }

  unfoldable pub signal_each : List ℕ → Manager → Manager
  signal_each [] m = m
  signal_each (t ∷ ts) m = signal_each ts (signal_copy (signal_entry t) m)

  abbrev pub least : ℕ → List ℕ → ℕ
  least t [] = t
  least t (u ∷ us) = least (if ltb u t then u else t) us

  abbrev pub greatest : ℕ → List ℕ → ℕ
  greatest t [] = t
  greatest t (u ∷ us) = greatest (if ltb t u then u else t) us

  -- More than four tiles: one copy for a range of tiles without a gap, else one for each.
  unfoldable pub signal_range : List ℕ → Manager → Manager
  signal_range [] m = m
  signal_range (t ∷ ts) m =
      let min_tid = least t ts in
      let max_tid = greatest t ts in
      let range = add32 (max_tid - min_tid) 1 in
      if (range == length (t ∷ ts)) && ltb max_tid max_tiles
      then signal_copy (record (signal_entry min_tid) { size = range * 8 }) m
      else signal_each (t ∷ ts) m

  unfoldable pub signal_tiles : Bool → List ℕ → Manager → Manager
  signal_tiles on_stream ids m =
      let waiting = (make_stream_wait_on_all drv signal m).1 in
      if on_stream
      then if leb (length ids) 4 then signal_each ids waiting else signal_range ids waiting
      else if ltb 0 (length ids)
      then submit drv (map signal_entry ids) m
      else m

  unfoldable pub process_batch_tiled : (ℕ → Descriptor) → List Descriptor → Poller → Poller
  process_batch_tiled unset batch p =
      let s = count_entries max_tiles batch (no_buckets p.bucket_map) in
      let n = s.num_active in
      let groups = for_buckets n (bucket_entries max_tiles batch unset s) in
      let all = concat groups in
      let progress = add_progress n s.ids s.counts p.tile_progress in
      let copied = submit_tiles drv all groups p.ce in
      record p {
        bucket_map = clear_buckets n s.ids s.bucket_map;
        total_bytes_copied = add64 p.total_bytes_copied (sum_bytes 0 all);
        tile_progress = elim p.tile_signal_buf [
          | none ↦ p.tile_progress
          | some buf ↦ (progress buf).0
        ];
        tile_signal_buf = elim p.tile_signal_buf [ none ↦ none | some buf ↦ some (progress buf).1 ];
        ce = elim p.tile_signal_buf [
          | none ↦ copied
          | some buf ↦
              signal_tiles (p.has_device_signals && p.signal_stream) (for_buckets n s.ids) copied
        ];
        descriptors_processed = add64 p.descriptors_processed (length batch);
        batches_submitted = add64 p.batches_submitted n;
      }

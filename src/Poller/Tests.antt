-- ===== src/Poller/Tests.antt =====
-- A batch processed tile by tile.
use gfd.Base.{
  concat, ℕ, ◌+◌, ◌*◌, ◌<◌, ◌≡◌, refl, true, none, some, List, [], ◌∷◌, length, arith, inl, inr,
}
use gfd.Driver.{SgEntry}
use gfd.Memory.{Memory}
use gfd.Memory.Cover.{In, covers}
use gfd.Memory.Concurrent.{SameBytes}
use gfd.Coalesce.Sound.{InRange, no_entry, and_entry}
use gfd.CopyEngine.Tests.{ready, ready-IsValid, no_error, no_error-Succeeds, entry}
use gfd.Batch.Counts.{entries_of}
use gfd.Batch.Tests.{mixed, unset, no_bucket}
use gfd.Poller.{Poller, submit_tiles, process_batch_tiled}
use gfd.Poller.TileCopies.{Left, submit_tiles-Left}
use gfd.Poller.Progress.{process_batch_tiled_progress}

abbrev host : Memory
host p = p

abbrev two_tiles : List (List SgEntry)
two_tiles = (entry 0 ∷ entry 16 ∷ []) ∷ (entry 64 ∷ []) ∷ []

abbrev small : {n : ℕ} → n < 2000 → InRange (entry n)
small h = record { dst_ends = omega arith; src_ends = omega arith }

-- All entries read from one distance.
two_tiles-source : (e : SgEntry) → In e (concat two_tiles) → e.src ≡ e.dst + 1000
two_tiles-source e (inl a) = rw a refl
two_tiles-source e (inr (inl a)) = rw a refl
two_tiles-source e (inr (inr (inl a))) = rw a refl
two_tiles-source e (inr (inr (inr a))) = absurd a

two_tiles-SameBytes : SameBytes host (concat two_tiles)
unfolding covers
two_tiles-SameBytes e f p m n hit hit' =
    ground (arith, two_tiles-source e m, two_tiles-source f n, hit, hit')

submit_tiles-Left_example :
    Left host (concat two_tiles) ready (submit_tiles no_error (concat two_tiles) two_tiles ready)
submit_tiles-Left_example =
    submit_tiles-Left no_error no_error-Succeeds host two_tiles ready
      (and_entry (small (omega arith))
        (and_entry (small (omega arith)) (and_entry (small (omega arith)) no_entry)))
      two_tiles-SameBytes ready-IsValid refl

abbrev fresh : Poller
fresh = record {
  ce = ready;
  tile_progress = λ t. 10 * t;
  tile_signal_buf = some (λ t. 0);
  has_device_signals = true;
  signal_stream = true;
  bucket_map = no_bucket;
  total_bytes_copied = 0;
  descriptors_processed = 0;
  batches_submitted = 0;
}

process_batch_tiled_progress_example :
    let p' = process_batch_tiled no_error (λ t. 8 * t) (λ t. 9000 + 8 * t) unset mixed fresh in
    (p'.tile_progress 7 ≡ 70 + length (entries_of 7 mixed))
    × (0 < length (entries_of 7 mixed)
        → (buf' : ℕ → ℕ) × (p'.tile_signal_buf ≡ some buf')
          × (buf' 7 ≡ 70 + length (entries_of 7 mixed)))
    × ((t : ℕ) → p'.bucket_map t ≡ none)
unfolding entries_of
process_batch_tiled_progress_example =
    process_batch_tiled_progress no_error (λ t. 8 * t) (λ t. 9000 + 8 * t) unset mixed fresh
      (λ t. 0) 7 refl (λ t. refl) (omega arith) (omega arith)

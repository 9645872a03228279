-- ===== src/SgPoller/Tests.antt =====
-- One list, in one batch and in two.
use gfd.Base.{◌+◌, ◌*◌, ◌≡◌, refl, true, List, [], ◌∷◌, ◌++◌, some, arith}
use gfd.Queue.{Descriptor}
use gfd.CopyEngine.Tests.{ready, no_error}
use gfd.Batch.Tests.{of_tile, unset, no_bucket}
use gfd.SgPoller.{SgPoller, process_batch_sg}
use gfd.SgPoller.Completion.{nothing, entry, split_list_counted_twice}

abbrev waiting : SgPoller
waiting = record {
  ce = ready;
  bucket_map = no_bucket;
  tile_signal_buf = some (λ t. 0);
  signal_stream = true;
  has_list_done = true;
  list_done = λ k. 0;
  lists_completed = 0;
  total_bytes_copied = 0;
  descriptors_processed = 0;
  batches_submitted = 0;
}

abbrev first_part : List Descriptor
first_part = of_tile 3 0 ∷ of_tile 3 4 ∷ []

abbrev second_part : List Descriptor
second_part = of_tile 3 8 ∷ []

split_list_counted_twice_example :
    let process = process_batch_sg no_error (λ k. 8 * k) (λ k. 9000 + 8 * k) unset in
    ((process (first_part ++ second_part) waiting).lists_completed ≡ 1)
    × ((process second_part (process first_part waiting)).lists_completed ≡ 2)
split_list_counted_twice_example =
    split_list_counted_twice no_error (λ k. 8 * k) (λ k. 9000 + 8 * k) unset 3 first_part
      second_part waiting (omega arith) (entry refl (entry refl nothing)) (entry refl nothing)
      (omega arith) (omega arith) (λ t. refl) (omega arith)

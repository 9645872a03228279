-- ===== src/Device/Tests.antt =====
-- Concrete runs of include/gfd/device.cuh.
use gfd.Base.{ℕ, ◌+◌, ◌*◌, ◌≡◌, ◌≢◌, true, arith, ◌==◌, if◌then◌else◌}
use gfd.Queue.{DescriptorQueue, place, flag_none, flag_last_in_batch}
use gfd.Device.{write_and_commit}
use gfd.Device.Publish.{write_and_commit_publishes}

abbrev empty_queue : DescriptorQueue
empty_queue = record {
  entries =
      λ p. record { src_addr = 0; dst_addr = 0; size = 0; flags = 0; user_data = 0; sequence = 0 };
  write_idx = 0;
  read_idx = 0;
  done_idx = 0;
}

write_and_commit_publishes_example :
    let q' = write_and_commit empty_queue 16382 3 true 4096 8192 64 4 7 in
    (q'.entries (place (16382 + 3)) ≡ record {
      src_addr = 4096;
      dst_addr = 8192 + 3 * 64;
      size = 64;
      flags = if 3 + 1 == 4 then flag_last_in_batch else flag_none;
      user_data = 7;
      sequence = 16382 + 3 + 1;
    })
    × ((p : ℕ) → p ≢ place (16382 + 3) → q'.entries p ≡ empty_queue.entries p)
    × (q'.write_idx ≡ empty_queue.write_idx)
    × (q'.read_idx ≡ empty_queue.read_idx)
    × (q'.done_idx ≡ empty_queue.done_idx)
write_and_commit_publishes_example =
    write_and_commit_publishes empty_queue 16382 3 4096 8192 64 4 7 (omega arith) (omega arith)

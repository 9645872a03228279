-- ===== src/Device.antt =====
-- include/gfd/device.cuh: the calls that a fused kernel makes on the descriptor ring, one thread at
-- a time. The fences order memory between devices; here every write is seen at once.
pub mod Publish
pub mod Tests
use gfd.Base.{ℕ, ◌+◌, Bool, true, false, leb, ◌==◌, if◌then◌else◌, update}
use gfd.Queue.{Descriptor, DescriptorQueue, place, add64, mul64, flag_none, flag_last_in_batch}

-- The fields that a producer fills in; the sequence word is left as it is.
unfoldable pub fill : ℕ → ℕ → ℕ → ℕ → ℕ → ℕ → Descriptor → Descriptor
fill token_idx src gpu_dst token_size num_tokens user_data d = record d {
  src_addr = src;
  dst_addr = add64 gpu_dst (mul64 token_idx token_size);
  size = token_size;
  flags = if token_idx + 1 == num_tokens then flag_last_in_batch else flag_none;
  user_data = user_data;
}

abbrev pub slot_of : ℕ → ℕ → ℕ
slot_of base_slot token_idx = add64 base_slot token_idx

module _ (q : DescriptorQueue) (base_slot token_idx : ℕ) where
  abbrev pub entry_of : Descriptor
  entry_of = q.entries (place (slot_of base_slot token_idx))

  unfoldable pub write_descriptor : ℕ → ℕ → ℕ → ℕ → ℕ → DescriptorQueue
  unfolding fill
  write_descriptor src gpu_dst token_size num_tokens user_data = record q {
    entries =
        update q.entries (place (slot_of base_slot token_idx))
          (fill token_idx src gpu_dst token_size num_tokens user_data entry_of);
  }

  unfoldable pub fence_and_commit : Bool → DescriptorQueue
  fence_and_commit false = q
  fence_and_commit true = record q {
    entries =
        update q.entries (place (slot_of base_slot token_idx))
          (record (entry_of) { sequence = add64 (slot_of base_slot token_idx) 1 });
  }

  -- `false` if the sequence word of the place is not 0.
  unfoldable pub write_descriptor_safe : ℕ → ℕ → ℕ → ℕ → ℕ → DescriptorQueue × Bool
  write_descriptor_safe src gpu_dst token_size num_tokens user_data =
      let desc = record (entry_of) {
        src_addr = src;
        dst_addr = add64 gpu_dst (mul64 token_idx token_size);
        size = token_size;
        flags = if token_idx + 1 == num_tokens then flag_last_in_batch else flag_none;
        user_data = user_data;
      } in
      if (entry_of).sequence == 0
      then (
        record q { entries = update q.entries (place (slot_of base_slot token_idx)) desc },
        true,
      )
      else (q, false)

unfoldable pub write_and_commit :
    DescriptorQueue → ℕ → ℕ → Bool → ℕ → ℕ → ℕ → ℕ → ℕ → DescriptorQueue
unfolding write_descriptor fence_and_commit
write_and_commit q base_slot token_idx active src gpu_dst token_size num_tokens user_data =
    let q' =
      if active
      then write_descriptor q base_slot token_idx src gpu_dst token_size num_tokens user_data
      else q in
    fence_and_commit q' base_slot token_idx active

-- One round of the polling loop: `true` ends the wait.
unfoldable pub wait_for_completion : DescriptorQueue → ℕ → Bool
wait_for_completion q expected_done = leb expected_done q.done_idx

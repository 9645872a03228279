-- ===== src/Device/Publish.antt =====
-- What a thread publishes: the whole descriptor, in its own place, and nothing else.
use gfd.Base.{ℕ, ◌+◌, ◌*◌, ◌^◌, ◌<◌, ◌≡◌, ◌≢◌, refl, true, false, arith, ◌==◌, if◌then◌else◌}
use gfd.Queue.{DescriptorQueue, place, flag_none, flag_last_in_batch}
use gfd.Device.{
  fill, entry_of, write_descriptor, fence_and_commit, write_descriptor_safe, write_and_commit,
}

-- An active thread's write and commit makes its slot ready for the poller, which looks for
-- `slot + 1`, with the address, size, flags and user data of its own token; every other place of
-- the ring and the three indices stay as they were.
pub write_and_commit_publishes :
    (q : DescriptorQueue) (base_slot token_idx src gpu_dst token_size num_tokens user_data : ℕ)
    → base_slot + token_idx + 1 < 2 ^ 64
    → gpu_dst + token_idx * token_size < 2 ^ 64
    → let slot = base_slot + token_idx in
      let q' =
        write_and_commit q base_slot token_idx true src gpu_dst token_size num_tokens user_data in
      (q'.entries (place slot) ≡ record {
        src_addr = src;
        dst_addr = gpu_dst + token_idx * token_size;
        size = token_size;
        flags = if token_idx + 1 == num_tokens then flag_last_in_batch else flag_none;
        user_data = user_data;
        sequence = slot + 1;
      })
      × ((p : ℕ) → p ≢ place slot → q'.entries p ≡ q.entries p)
      × (q'.write_idx ≡ q.write_idx)
      × (q'.read_idx ≡ q.read_idx)
      × (q'.done_idx ≡ q.done_idx)
unfolding write_and_commit write_descriptor fill fence_and_commit
write_and_commit_publishes q base_slot token_idx src gpu_dst token_size num_tokens user_data hs hd =
    (ground arith, λ p h. ground arith, refl, refl, refl)

-- With backpressure a refused write changes nothing, and it is refused exactly when the sequence word
-- of the place is not 0. A write that is let through is that of `write_descriptor`, and leaves the
-- sequence word at 0, so the poller does not see it before the commit.
pub write_descriptor_safe_lem :
    (q : DescriptorQueue) (base_slot token_idx src gpu_dst token_size num_tokens user_data : ℕ)
    → let r =
        write_descriptor_safe q base_slot token_idx src gpu_dst token_size num_tokens user_data in
      ((entry_of q base_slot token_idx).sequence ≢ 0 → r ≡ (q, false))
      × ((entry_of q base_slot token_idx).sequence ≡ 0
          → (r.1 ≡ true)
            × ((entry_of r.0 base_slot token_idx).sequence ≡ 0)
            × (r.0
                ≡ write_descriptor q base_slot token_idx src gpu_dst token_size num_tokens
                    user_data))
unfolding write_descriptor_safe write_descriptor fill
write_descriptor_safe_lem q base_slot token_idx src gpu_dst token_size num_tokens user_data =
    (λ h. ground arith, λ h. (ground arith, ground arith, ground arith))

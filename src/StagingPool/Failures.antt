-- ===== src/StagingPool/Failures.antt =====
-- A set whose buffers could not all be allocated.
use gfd.Base.{ℕ, ◌≡◌, arith, true, false, some}
use gfd.StagingPool.{
  Pool, Source, plain, refused, acquire_from, acquire_buffers, init, fill_set, fill_sets,
}

-- With two sets, all buffers of the first allocated and the first buffer of the second refused: `init`
-- still reports success, and the second caller is given the second set, with a null pointer for a
-- buffer.
pub failed_set_handed_out :
    (source : ℕ → ℕ → Source) (buf_size numa_node : ℕ) (pool : Pool)
    → pool.initialized ≡ false
    → ((b : ℕ) → source 0 b ≡ plain)
    → source 1 0 ≡ refused
    → (pool.sets 1).bufs 0 ≡ false
    → let started = init source 2 buf_size numa_node pool in
      let first = acquire_buffers buf_size started.1 in
      let second = acquire_buffers buf_size first.1 in
      (started.0 ≡ true)
      × (first.0 ≡ some 0)
      × (second.0 ≡ some 1)
      × ((second.1.sets 1).bufs 0 ≡ false)
unfolding init fill_sets fill_set acquire_buffers acquire_from
failed_set_handed_out source buf_size numa_node pool fresh ok bad null =
    let b0 = ok 0 in
    let b1 = ok 1 in
    let b2 = ok 2 in
    let b3 = ok 3 in
    let b4 = ok 4 in
    (
      ground (arith, fresh, b0, b1, b2, b3, b4, bad),
      ground (arith, fresh, b0, b1, b2, b3, b4, bad),
      ground (arith, fresh, b0, b1, b2, b3, b4, bad),
      ground (arith, fresh, b0, b1, b2, b3, b4, bad, null),
    )

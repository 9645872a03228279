-- ===== src/StagingPool/Tests.antt =====
-- Concrete runs of include/gfd/staging_pool.h.
use gfd.Base.{ℕ, zero, suc, ◌+◌, ◌<◌, ◌≡◌, refl, true, false, ◌⊎◌, none, some}
use gfd.StagingPool.{
  acquire_from, Pool, BufferSet, Source, plain, refused, init, acquire_buffers, release_buffers,
}
use gfd.StagingPool.Handout.{IsFree, taken, acquire_buffers_lem, release_buffers-acquire_buffers}
use gfd.StagingPool.Failures.{failed_set_handed_out}

abbrev sized : ℕ → BufferSet
sized n = record {
  bufs = λ b. false;
  buf_size = n;
  hp_size = 0;
  hugepage = false;
  in_use = false;
  numa_node = 0;
}

-- A pool of three sets of 1000, 1001 and 1002 bytes.
abbrev three : Pool
three = record { initialized = true; num_sets = 3; buf_size = 1000; sets = λ s. sized (1000 + s) }

abbrev empty_pool : Pool
empty_pool = record { initialized = false; num_sets = 0; buf_size = 0; sets = λ s. sized 0 }

abbrev second_refused : ℕ → ℕ → Source
second_refused zero b = plain
second_refused (suc s) b = refused

acquire_buffers_lem_example :
    ((acquire_buffers 1001 three ≡ (none, three)) × ((i : ℕ) → i < 3 → ¬ IsFree three 1001 i))
    ⊎ ((i : ℕ) × (acquire_buffers 1001 three ≡ (some i, taken three i))
        × (i < 3)
        × IsFree three 1001 i
        × ((j : ℕ) → j < i → ¬ IsFree three 1001 j))
acquire_buffers_lem_example = acquire_buffers_lem 1001 three refl

release_buffers-acquire_buffers_example :
    let pool' = release_buffers (some 1) (acquire_buffers 1001 three).1 in
    (pool'.sets 1 ≡ three.sets 1)
    × (pool'.num_sets ≡ three.num_sets)
    × (pool'.initialized ≡ three.initialized)
    × (pool'.buf_size ≡ three.buf_size)
unfolding acquire_buffers acquire_from
release_buffers-acquire_buffers_example = release_buffers-acquire_buffers 1001 three 1 1 refl refl

failed_set_handed_out_example :
    let started = init second_refused 2 4096 0 empty_pool in
    let first = acquire_buffers 4096 started.1 in
    let second = acquire_buffers 4096 first.1 in
    (started.0 ≡ true)
    × (first.0 ≡ some 0)
    × (second.0 ≡ some 1)
    × ((second.1.sets 1).bufs 0 ≡ false)
failed_set_handed_out_example =
    failed_set_handed_out second_refused 4096 0 empty_pool refl (λ b. refl) refl refl

-- ===== src/SgQueue/Producers.antt =====
-- The device's submission, a warp at a time, and the host's.
use gfd.Base.{
  ℕ, ◌+◌, ◌-◌, ◌%◌, ◌^◌, ◌<◌, ◌≤◌, ◌≡◌, ◌≢◌, refl, sym, subst, ◌∙◌, arith, update, for_range, warp,
  warp_at, warp_other, dec_lt,
}
use gfd.Base.Loops.{touch}
use gfd.SgQueue.{
  SgTaskQueue, DeviceSgEntry, max_sg_pool_entries, pool_place, sg_submit_list, submit_sg_list,
  sg_commit_list, sg_alloc_list, sg_alloc_entries, sg_write_entries,
}
use gfd.SgQueue.Loops.{for_range-at, for_range-other}
use gfd.SgQueue.Submit.{pool_place-inj}

-- The offset from `base` of the only entry, within a pool's size, that stands in `p`.
abbrev offset_in_pool : ℕ → ℕ → ℕ
offset_in_pool base p = (p + max_sg_pool_entries - base % max_sg_pool_entries) % max_sg_pool_entries

pool_place-offset_in_pool :
    (base p : ℕ) → p < max_sg_pool_entries → pool_place base (offset_in_pool base p) ≡ p
pool_place-offset_in_pool base p h = omega arith

offset_in_pool-pool_place :
    (base p i : ℕ) → i < max_sg_pool_entries → pool_place base i ≡ p → i ≡ offset_in_pool base p
offset_in_pool-pool_place base p i h e = omega arith

module _ (base count : ℕ) (value : ℕ → DeviceSgEntry) (m : ℕ → DeviceSgEntry)
    (small : count ≤ max_sg_pool_entries) where
  abbrev by_warp : ℕ → DeviceSgEntry
  by_warp = warp count (touch (pool_place base) (λ i e. value i) count) m

  abbrev by_host : ℕ → DeviceSgEntry
  by_host = for_range count 0 (λ i k. update k (pool_place base i) (value i)) m

  untouched : (p : ℕ) → ((i : ℕ) → i < count → pool_place base i ≢ p) → by_warp p ≡ by_host p
  untouched p h =
      warp_other (pool_place base) (λ i e. value i) count p m h
      ∙ sym (for_range-other (pool_place base) value count 0 p m (λ i le lt. h i (omega arith)))

  written : (j : ℕ) → j < count → by_warp (pool_place base j) ≡ by_host (pool_place base j)
  written j hj =
      warp_at (pool_place base) (λ i e. value i) count j m hj
        (λ i hi e. pool_place-inj base count i j small hi hj e)
      ∙ sym (
          for_range-at (pool_place base) value count 0 j m (omega arith) (omega arith)
            (λ i le lt e. pool_place-inj base count i j small (omega arith) hj e))

  same_pool : (p : ℕ) → by_warp p ≡ by_host p
  same_pool p = elim (dec_lt p max_sg_pool_entries) [
    | yes inside ↦ elim (dec_lt (offset_in_pool base p) count) [
      | yes h ↦
          subst (λ q. by_warp q ≡ by_host q) (pool_place-offset_in_pool base p inside)
            (written (offset_in_pool base p) h)
      | no h ↦ untouched p (λ i hi e.
          absurd (omega (arith, offset_in_pool-pool_place base p i (omega arith) e, h, hi)))
    ]
    | no outside ↦ untouched p (λ i hi e. absurd (omega (arith, e, outside)))
  ]

-- A warp's submission of a list leaves the queue as the host's does: the same slot, headers, pool and
-- indices, for a list that fits in the pool.
pub sg_submit_list_as_host :
    (sq : SgTaskQueue) (entries : ℕ → DeviceSgEntry) (count list_id flags p : ℕ)
    → count ≤ max_sg_pool_entries
    → let device = sg_submit_list sq entries count list_id flags in
      let host = submit_sg_list sq entries count list_id flags in
      (device.0 ≡ host.0)
      × (device.1.entries p ≡ host.1.entries p)
      × (device.1.lists p ≡ host.1.lists p)
      × (device.1.list_alloc_idx ≡ host.1.list_alloc_idx)
      × (device.1.entry_alloc_idx ≡ host.1.entry_alloc_idx)
      × (device.1.list_read_idx ≡ host.1.list_read_idx)
      × (device.1.entry_consumed_idx ≡ host.1.entry_consumed_idx)
unfolding sg_submit_list submit_sg_list sg_commit_list sg_alloc_list sg_alloc_entries
    sg_write_entries
sg_submit_list_as_host sq entries count list_id flags p h =
    let offset : sq.entry_alloc_idx % 2 ^ 32 % max_sg_pool_entries
        ≡ sq.entry_alloc_idx % max_sg_pool_entries =
      omega arith in
    (
      refl,
      same_pool sq.entry_alloc_idx count entries sq.entries h p,
      ground (arith, offset),
      refl,
      refl,
      refl,
      refl,
    )

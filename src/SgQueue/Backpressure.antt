-- ===== src/SgQueue/Backpressure.antt =====
-- The wait for space in the pool of entries, over all the steps of the queue.
use gfd.Base.{ℕ, ◌+◌, ◌*◌, ◌%◌, ◌^◌, ◌<◌, ◌≤◌, ◌≡◌, false, arith}
use gfd.SgQueue.{
  SgTaskQueue, DeviceSgEntry, max_sg_pool_entries, sg_wait_entry_space, sg_submit_list,
  submit_sg_list, claim_list, consume_list, sg_commit_list, sg_alloc_list, sg_alloc_entries,
  sg_write_entries,
}

-- A submission of at most the pool's size, from the device or the host, a claim, or the end of a list.
pub data SgStep (sq : SgTaskQueue) : SgTaskQueue → Type 0 where
  device_submit :
      (entries : ℕ → DeviceSgEntry) (count list_id flags : ℕ)
      → count ≤ max_sg_pool_entries
      → sq.entry_alloc_idx + count < 2 ^ 63
      → SgStep sq (sg_submit_list sq entries count list_id flags).1
  host_submit :
      (entries : ℕ → DeviceSgEntry) (count list_id flags : ℕ)
      → count ≤ max_sg_pool_entries
      → sq.entry_alloc_idx + count < 2 ^ 63
      → SgStep sq (submit_sg_list sq entries count list_id flags).1
  claim : SgStep sq (claim_list sq).1
  consume : (list_idx : ℕ) → SgStep sq (consume_list sq list_idx)

pub data SgSteps : SgTaskQueue → SgTaskQueue → Type 0 where
  done : {sq : SgTaskQueue} → SgSteps sq sq
  later : {a b c : SgTaskQueue} → SgStep a b → SgSteps b c → SgSteps a c

-- No list, and no index, says that more than two pools' worth of entries is consumed.
pub record Low (sq : SgTaskQueue) : Type 0 where
  pub list_offset : (p : ℕ) → (sq.lists p).pool_offset < max_sg_pool_entries
  pub list_count : (p : ℕ) → (sq.lists p).count ≤ max_sg_pool_entries
  pub consumed : sq.entry_consumed_idx < 2 * max_sg_pool_entries
  pub allocated : sq.entry_alloc_idx < 2 ^ 63

SgStep-Low : {a b : SgTaskQueue} → Low a → SgStep a b → Low b
unfolding sg_submit_list submit_sg_list claim_list consume_list sg_commit_list sg_alloc_list
    sg_alloc_entries sg_write_entries
SgStep-Low v (device_submit entries count list_id flags h k) = record {
  list_offset = λ p. ground (arith, v.list_offset p);
  list_count = λ p. ground (arith, v.list_count p, h);
  consumed = v.consumed;
  allocated = omega arith;
}
SgStep-Low v (host_submit entries count list_id flags h k) = record {
  list_offset = λ p. ground (arith, v.list_offset p);
  list_count = λ p. ground (arith, v.list_count p, h);
  consumed = v.consumed;
  allocated = omega arith;
}
SgStep-Low v claim = record {
  list_offset = v.list_offset;
  list_count = v.list_count;
  consumed = v.consumed;
  allocated = v.allocated;
}
SgStep-Low {a} v (consume list_idx) = record {
  list_offset = λ p. ground (arith, v.list_offset p, v.list_offset (list_idx % 512));
  list_count = λ p. ground (arith, v.list_count p, v.list_count (list_idx % 512));
  consumed =
      omega (arith, v.consumed, v.list_offset (list_idx % 512), v.list_count (list_idx % 512));
  allocated = v.allocated;
}

SgStep-grows : {a b : SgTaskQueue} → SgStep a b → a.entry_alloc_idx ≤ b.entry_alloc_idx
unfolding sg_submit_list submit_sg_list claim_list consume_list sg_commit_list sg_alloc_list
    sg_alloc_entries sg_write_entries
SgStep-grows (device_submit entries count list_id flags h k) = omega arith
SgStep-grows (host_submit entries count list_id flags h k) = omega arith
SgStep-grows claim = omega arith
SgStep-grows (consume list_idx) = omega arith

blocked :
    (sq : SgTaskQueue) (needed : ℕ)
    → Low sq
    → 3 * max_sg_pool_entries ≤ sq.entry_alloc_idx
    → needed ≤ max_sg_pool_entries
    → sg_wait_entry_space sq needed ≡ false
unfolding sg_wait_entry_space
blocked sq needed v h small = ground (arith, v.consumed, v.allocated, h, small)

-- The index of consumed entries is a maximum over places in the pool, so it stays below two pools' worth
-- of entries. Once three pools' worth have been allocated, the wait for space in the pool never ends,
-- whatever is submitted, claimed or consumed from then on.
pub full_pool_blocks :
    {a b : SgTaskQueue} (needed : ℕ)
    → SgSteps a b
    → Low a
    → 3 * max_sg_pool_entries ≤ a.entry_alloc_idx
    → needed ≤ max_sg_pool_entries
    → sg_wait_entry_space b needed ≡ false
full_pool_blocks {a} needed done v h small = blocked a needed v h small
full_pool_blocks needed (later step steps) v h small =
    full_pool_blocks needed steps (SgStep-Low v step) (omega (arith, h, SgStep-grows step)) small

-- ===== src/SgQueue.antt =====
-- include/gfd/sg_task_queue.h, include/gfd/sg_device_primitives.cuh, include/gfd/sg_warp_spec.cuh and
-- src/sg_warp_spec_session.cpp: the queue of scatter-gather lists, its producers on the host and on the
-- device, and the transfer warp that turns a list into descriptors.
pub mod Loops
pub mod Submit
pub mod Linear
pub mod Producers
pub mod Backpressure
pub mod Tests
use gfd.Base.{
  ℕ, zero, suc, ◌+◌, ◌-◌, ◌*◌, ◌/◌, ◌%◌, ◌^◌, Bool, true, false, ltb, leb, ◌==◌, ◌&&◌,
  if◌then◌else◌, Option, none, some, update, for_range, warp, max,
}
use gfd.Base.Loops.{touch}
use gfd.Queue.{
  Descriptor, DescriptorQueue, place, add64, sub64, pack, flag_none, flag_last_in_tile, queue_size,
  mul64, add32,
}
use gfd.SgPoller.{max_sg_lists}

abbrev pub max_sg_pool_entries : ℕ
max_sg_pool_entries = 16384

pub record DeviceSgEntry : Type 0 where
  pub src_addr : ℕ
  pub dst_addr : ℕ
  pub size : ℕ
  pub tag : ℕ

pub record SgList : Type 0 where
  pub pool_offset : ℕ
  pub count : ℕ
  pub list_id : ℕ
  pub flags : ℕ
  pub sequence : ℕ

pub record SgTaskQueue : Type 0 where
  pub lists : ℕ → SgList
  pub entries : ℕ → DeviceSgEntry
  pub list_alloc_idx : ℕ
  pub entry_alloc_idx : ℕ
  pub list_read_idx : ℕ
  pub entry_consumed_idx : ℕ
  pub lists_completed : ℕ
  pub terminate : ℕ

-- `(pool_offset + i) % MAX_SG_POOL_ENTRIES`
abbrev pub pool_place : ℕ → ℕ → ℕ
pool_place pool_offset i = add64 pool_offset i % max_sg_pool_entries

-- One round of each wait: `true` ends it. `MAX_SG_POOL_ENTRIES - needed` is `uint32_t` arithmetic.
unfoldable pub sg_wait_entry_space : SgTaskQueue → ℕ → Bool
sg_wait_entry_space sq needed =
    leb (sub64 sq.entry_alloc_idx sq.entry_consumed_idx)
      ((max_sg_pool_entries + 2 ^ 32 - needed) % 2 ^ 32)

unfoldable pub sg_wait_list_space : SgTaskQueue → Bool
sg_wait_list_space sq = ltb (sub64 sq.list_alloc_idx sq.list_read_idx) (max_sg_lists - 1)

unfoldable pub sg_alloc_entries : SgTaskQueue → ℕ → ℕ × SgTaskQueue
sg_alloc_entries sq count =
    (sq.entry_alloc_idx, record sq { entry_alloc_idx = add64 sq.entry_alloc_idx count })

unfoldable pub sg_alloc_list : SgTaskQueue → ℕ × SgTaskQueue
sg_alloc_list sq = (sq.list_alloc_idx, record sq { list_alloc_idx = add64 sq.list_alloc_idx 1 })

unfoldable pub sg_write_entries : SgTaskQueue → ℕ → (ℕ → DeviceSgEntry) → ℕ → SgTaskQueue
sg_write_entries sq pool_offset src_entries count = record sq {
  entries = warp count (touch (pool_place pool_offset) (λ i e. src_entries i) count) sq.entries;
}

-- The header and the commit marker, of a slot that the caller has allocated.
unfoldable pub sg_commit_list : SgTaskQueue → ℕ → ℕ → ℕ → ℕ → ℕ → SgTaskQueue
sg_commit_list sq slot pool_offset count list_id flags = record sq {
  lists = update sq.lists (slot % max_sg_lists) (record {
    pool_offset = pool_offset % max_sg_pool_entries;
    count = count;
    list_id = list_id;
    flags = flags;
    sequence = add64 slot 1;
  });
}

-- After the two waits for space.
unfoldable pub sg_submit_list : SgTaskQueue → (ℕ → DeviceSgEntry) → ℕ → ℕ → ℕ → ℕ × SgTaskQueue
unfolding sg_alloc_entries sg_write_entries sg_alloc_list sg_commit_list
sg_submit_list sq entries count list_id flags =
    let pool = sg_alloc_entries sq count in
    let list = sg_alloc_list (sg_write_entries pool.1 pool.0 entries count) in
    (list.0, sg_commit_list list.1 list.0 (pool.0 % 2 ^ 32) count list_id flags)

-- The host's submission, which waits for no space.
unfoldable pub submit_sg_list : SgTaskQueue → (ℕ → DeviceSgEntry) → ℕ → ℕ → ℕ → ℕ × SgTaskQueue
submit_sg_list sq entries count list_id flags =
    let pool_offset = sq.entry_alloc_idx in
    let list_slot = sq.list_alloc_idx in
    (
      list_slot,
      record sq {
        entry_alloc_idx = add64 pool_offset count;
        entries =
            for_range count 0 (λ i m. update m (pool_place pool_offset i) (entries i)) sq.entries;
        list_alloc_idx = add64 list_slot 1;
        lists = update sq.lists (list_slot % max_sg_lists) (record {
          pool_offset = pool_offset % max_sg_pool_entries;
          count = count;
          list_id = list_id;
          flags = flags;
          sequence = add64 list_slot 1;
        });
      },
    )

-- The transfer warp's claim of a list, and its test for the commit marker.
unfoldable pub claim_list : SgTaskQueue → ℕ × SgTaskQueue
claim_list sq = (sq.list_read_idx, record sq { list_read_idx = add64 sq.list_read_idx 1 })

unfoldable pub list_committed : SgTaskQueue → ℕ → Bool
list_committed sq list_idx = (sq.lists (list_idx % max_sg_lists)).sequence == add64 list_idx 1

-- The descriptor of entry `i`; the sequence word is left as it is.
unfoldable pub list_descriptor : SgTaskQueue → SgList → ℕ → Descriptor → Descriptor
list_descriptor sq l i d =
    let e = sq.entries ((l.pool_offset + i) % 2 ^ 32 % max_sg_pool_entries) in
    record d {
      src_addr = e.src_addr;
      dst_addr = e.dst_addr;
      size = e.size;
      user_data = pack l.list_id i;
      flags = if i + 1 == l.count then flag_last_in_tile else flag_none;
    }

-- What the warp writes to the ring for a list, in the slots from `desc_base` on.
unfoldable pub transfer_list : SgTaskQueue → SgList → ℕ → DescriptorQueue → DescriptorQueue
unfolding list_descriptor
transfer_list sq l desc_base dq =
    let key = λ (i : ℕ). place (add64 desc_base i) in
    let written = warp l.count (touch key (list_descriptor sq l) l.count) dq.entries in
    record dq {
      entries =
          warp l.count
            (touch key (λ i d. record d { sequence = add64 (add64 desc_base i) 1 }) l.count)
            written;
    }

-- The marker cleared, and the maximum with what is consumed.
unfoldable pub consume_list : SgTaskQueue → ℕ → SgTaskQueue
consume_list sq list_idx =
    let ring_slot = list_idx % max_sg_lists in
    let l = sq.lists ring_slot in
    record sq {
      lists = update sq.lists ring_slot (record l { sequence = 0 });
      entry_consumed_idx = max sq.entry_consumed_idx (l.pool_offset + l.count);
    }

-- The loop over `count` tokens from `start_idx` on.
unfoldable pub linear_to_sg_entries :
    (ℕ → DeviceSgEntry) → ℕ → ℕ → ℕ → ℕ → ℕ → ℕ → ℕ → DeviceSgEntry
linear_to_sg_entries entries cpu_base gpu_base token_size start_idx count tag =
    for_range count 0
      (λ i m. update m i (record {
        src_addr = add64 cpu_base (mul64 (add32 start_idx i) token_size);
        dst_addr = add64 gpu_base (mul64 (add32 start_idx i) token_size);
        size = token_size;
        tag = tag;
      }))
      entries

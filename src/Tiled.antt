-- ===== src/Tiled.antt =====
-- include/gfd/tiled_queue.h and include/gfd/device_primitives.cuh: the tiled queue and the calls by
-- which a warp takes tiles and slots, writes and commits chunks, and waits.
pub mod Chunks
pub mod Equivalence
pub mod Tests
use gfd.Base.{
  ℕ, ◌+◌, ◌-◌, ◌*◌, ◌/◌, ◌%◌, ◌^◌, Bool, true, false, ltb, leb, ◌==◌, ◌&&◌, if◌then◌else◌, Option,
  none, some, warp,
}
use gfd.Base.Loops.{touch}
use gfd.Queue.{
  Descriptor, DescriptorQueue, TileScheduler, place, queue_size, add64, mul64, sub64, add32, mul32,
  pack, bit_or, flag_none, flag_last_in_tile, flag_last_chunk_in_tile,
}

-- The device signal buffer is absent if its allocation failed.
pub record TiledQueue : Type 0 where
  pub base : DescriptorQueue
  pub scheduler : TileScheduler
  pub tile_chunk_done : ℕ → ℕ
  pub d_tile_chunk_done : Option (ℕ → ℕ)

-- atomicAdd: the old value, and the queue after.
unfoldable pub acquire_tile : TiledQueue → ℕ × TiledQueue
acquire_tile tq = (
  tq.scheduler.next_tile,
  record tq { scheduler = record (tq.scheduler) { next_tile = add32 tq.scheduler.next_tile 1 } },
)

unfoldable pub acquire_chunk_slots : TiledQueue → ℕ → ℕ × TiledQueue
acquire_chunk_slots tq count = (
  tq.base.write_idx,
  record tq { base = record (tq.base) { write_idx = add64 tq.base.write_idx count } },
)

-- The fields that depend on the token alone. The sequence word is left as it is.
abbrev pub token_fields : ℕ → ℕ → ℕ → ℕ → ℕ → Descriptor → Descriptor
token_fields tile_id global_idx cpu_base gpu_base token_size d = record d {
  src_addr = add64 cpu_base (mul64 global_idx token_size);
  dst_addr = add64 gpu_base (mul64 global_idx token_size);
  size = token_size;
  user_data = pack tile_id global_idx;
}

-- `i` is the token's index in the chunk, `C` and `T` the tokens of a chunk and of a tile.
unfoldable pub chunk_entry : ℕ → ℕ → ℕ → ℕ → ℕ → ℕ → ℕ → ℕ → Descriptor → Descriptor
chunk_entry tile_id chunk_id C T cpu_base gpu_base token_size i d =
    let global_idx = add32 (mul32 tile_id T) (add32 (mul32 chunk_id C) i) in
    let flags = if i + 1 == C then flag_last_in_tile else flag_none in
    record (token_fields tile_id global_idx cpu_base gpu_base token_size d) {
      flags =
          if (i + 1 == C) && (chunk_id + 1 == T / C)
          then bit_or flags flag_last_chunk_in_tile
          else flags;
    }

unfoldable pub tile_entry : ℕ → ℕ → ℕ → ℕ → ℕ → ℕ → ℕ → Descriptor → Descriptor
tile_entry tile_id T C cpu_base gpu_base token_size i d =
    let global_idx = add32 (mul32 tile_id T) i in
    let flags = if i % C + 1 == C then bit_or flag_none flag_last_in_tile else flag_none in
    record (token_fields tile_id global_idx cpu_base gpu_base token_size d) {
      flags = if i + 1 == T then bit_or flags flag_last_chunk_in_tile else flags;
    }

unfoldable pub with_sequence : ℕ → Descriptor → Descriptor
with_sequence slot d = record d { sequence = add64 slot 1 }

abbrev pub slot_place : ℕ → ℕ → ℕ
slot_place slot_base i = place (add64 slot_base i)

-- The loop of a warp over the descriptors of `count` slots from `slot_base`.
unfoldable pub over_slots : (ℕ → Descriptor → Descriptor) → ℕ → ℕ → TiledQueue → TiledQueue
over_slots change slot_base count tq = record tq {
  base = record (tq.base) {
    entries = warp count (touch (slot_place slot_base) change count) tq.base.entries;
  };
}

unfoldable pub write_chunk : TiledQueue → ℕ → ℕ → ℕ → ℕ → ℕ → ℕ → ℕ → ℕ → TiledQueue
write_chunk tq slot_base tile_id chunk_id C T cpu_base gpu_base token_size =
    over_slots (chunk_entry tile_id chunk_id C T cpu_base gpu_base token_size) slot_base C tq

unfoldable pub commit_chunk : TiledQueue → ℕ → ℕ → TiledQueue
commit_chunk tq slot_base count =
    over_slots (λ i. with_sequence (add64 slot_base i)) slot_base count tq

unfoldable pub submit_chunk : TiledQueue → ℕ → ℕ → ℕ → ℕ → ℕ → ℕ → ℕ → ℕ → TiledQueue
unfolding write_chunk commit_chunk
submit_chunk tq slot_base tile_id chunk_id C T cpu_base gpu_base token_size =
    commit_chunk (write_chunk tq slot_base tile_id chunk_id C T cpu_base gpu_base token_size)
      slot_base C

unfoldable pub submit_tile : TiledQueue → ℕ → ℕ → ℕ → ℕ → ℕ → ℕ → ℕ → TiledQueue
submit_tile tq slot_base tile_id T C cpu_base gpu_base token_size =
    commit_chunk (over_slots (tile_entry tile_id T C cpu_base gpu_base token_size) slot_base T tq)
      slot_base T

-- One round of each polling loop: `true` ends the wait.
unfoldable pub wait_chunk_done : TiledQueue → ℕ → ℕ → Bool
wait_chunk_done tq tile_id expected = elim tq.d_tile_chunk_done [
  | some signal ↦ leb expected (signal tile_id)
  | none ↦ leb expected (tq.tile_chunk_done tile_id)
]

-- `QUEUE_SIZE - needed * 2` is `uint32_t` arithmetic.
unfoldable pub wait_queue_space : TiledQueue → ℕ → Bool
wait_queue_space tq needed =
    ltb (sub64 tq.base.write_idx tq.base.read_idx) ((queue_size + 2 ^ 32 - mul32 needed 2) % 2 ^ 32)

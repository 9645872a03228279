-- ===== src/Session.antt =====
-- include/gfd/warp_spec_session.h and src/warp_spec_session.cpp: the configuration of a session, its
-- choice of a chunk size, its validation, and the state of the tiled queue that it sets up and resets.
pub mod ChunkSize
pub mod Validation
pub mod Tests
use gfd.Base.{
  ℕ, zero, suc, ◌+◌, ◌-◌, ◌*◌, ◌/◌, ◌%◌, ◌^◌, Bool, true, false, ltb, leb, ◌==◌, ◌&&◌, ◌||◌, not,
  if◌then◌else◌, Option, none, some,
}
use gfd.Queue.{DescriptorQueue, TileScheduler, Descriptor, mul32}
use gfd.Tiled.{TiledQueue}

-- The pointers, the NUMA node and the choice of the copy engine are handed on unread.
pub record WarpSpecConfig : Type 0 where
  pub total_tokens : ℕ
  pub token_size : ℕ
  pub tokens_per_tile : ℕ
  pub tokens_per_chunk : ℕ
  pub num_blocks : ℕ
  pub double_buffer : Bool
  pub per_tile_mode : Bool

-- `while (p * 2 <= auto_chunk) p *= 2;`: a 32-bit `p` doubles at most 31 times.
unfoldable pub round_down : ℕ → ℕ → ℕ → ℕ
round_down zero p auto_chunk = p
round_down (suc f) p auto_chunk =
    let rest = round_down f (mul32 p 2) auto_chunk in if leb (mul32 p 2) auto_chunk then rest else p

module _ (config : WarpSpecConfig) where
  abbrev pub target_chunk_bytes : ℕ
  target_chunk_bytes =
      if leb config.token_size 512
      then 64 * 1024
      else if leb 65536 config.token_size
      then 256 * 1024
      else 128 * 1024

  -- The assignments to `auto_chunk`, in order. `token_size` is not 0.
  unfoldable pub auto_chunk : ℕ
  auto_chunk =
      let a1 = target_chunk_bytes / config.token_size % 2 ^ 32 in
      let a2 = if ltb a1 4 then 4 else a1 in
      let a3 = if ltb config.tokens_per_tile a2 then config.tokens_per_tile else a2 in
      let min_chunk = config.tokens_per_tile / 8 in
      if ltb 0 min_chunk && ltb a3 min_chunk then min_chunk else a3

  unfoldable pub effective_tokens_per_chunk : ℕ
  effective_tokens_per_chunk =
      if config.per_tile_mode
      then config.tokens_per_tile
      else if ltb 0 config.tokens_per_chunk
      then config.tokens_per_chunk
      else round_down 32 1 auto_chunk

  unfoldable pub total_tiles : ℕ
  total_tiles = config.total_tokens / config.tokens_per_tile

  unfoldable pub chunks_per_tile : ℕ
  chunks_per_tile = config.tokens_per_tile / effective_tokens_per_chunk

  unfoldable pub block_size : ℕ
  block_size =
      if config.double_buffer then (1 + 2 * chunks_per_tile) * 32 else (1 + chunks_per_tile) * 32

  -- The early returns of the constructor.
  unfoldable pub accepted : Bool
  accepted =
      not ((config.total_tokens == 0) || (config.token_size == 0))
      && not ((config.tokens_per_tile == 0) || (effective_tokens_per_chunk == 0))
      && (config.tokens_per_tile % effective_tokens_per_chunk == 0)

  -- `*tq_`, if it is allocated: `d_signal` says whether the device signal buffer was.
  unfoldable pub new_queue : Bool → Option TiledQueue
  new_queue d_signal =
      if accepted
      then some (record {
        base = record {
          entries = λ p. record {
            src_addr = 0;
            dst_addr = 0;
            size = 0;
            flags = 0;
            user_data = 0;
            sequence = 0;
          };
          write_idx = 0;
          read_idx = 0;
          done_idx = 0;
        };
        scheduler = record {
          next_tile = 0;
          total_tiles = total_tiles;
          tokens_per_tile = config.tokens_per_tile;
          tokens_per_chunk = effective_tokens_per_chunk;
          chunks_per_tile = chunks_per_tile;
          token_size = config.token_size;
        };
        tile_chunk_done = λ t. 0;
        d_tile_chunk_done = if d_signal then some (λ t. 0) else none;
      })
      else none

-- What `reset` does to the queue.
unfoldable pub reset_queue : TiledQueue → TiledQueue
reset_queue tq = record tq {
  d_tile_chunk_done = elim tq.d_tile_chunk_done [ some signal ↦ some (λ t. 0) | none ↦ none ];
  tile_chunk_done = λ t. 0;
  scheduler = record (tq.scheduler) { next_tile = 0 };
}

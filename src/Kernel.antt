-- ===== src/Kernel.antt =====
-- What the compute warps of a tile kernel are given (include/gfd/warp_spec.cuh): the views of chunks.
pub mod Views
pub mod Tests
use gfd.Base.{ℕ, ◌+◌}
use gfd.Queue.{add64, mul64, add32, mul32}

pub record ChunkView : Type 0 where
  pub base_ptr : ℕ
  pub token_size : ℕ
  pub size : ℕ
  pub tile_id : ℕ
  pub chunk_id : ℕ
  pub global_token_offset : ℕ
  pub lane_id : ℕ

-- ChunkView::data, for an index that is not negative
unfoldable pub data_ptr : ChunkView → ℕ → ℕ
data_ptr view local_token_idx = add64 view.base_ptr (mul64 local_token_idx view.token_size)

unfoldable pub global_idx : ChunkView → ℕ → ℕ
global_idx view local_token_idx = add32 view.global_token_offset local_token_idx

pub record TileContext : Type 0 where
  pub tile_id : ℕ
  pub tokens_per_tile : ℕ
  pub chunks_per_tile : ℕ
  pub tokens_per_chunk : ℕ
  pub tile_base_ptr : ℕ
  pub token_size : ℕ

-- `lane` is `threadIdx.x % 32`.
unfoldable pub get_chunk : TileContext → ℕ → ℕ → ChunkView
get_chunk tile chunk_id lane = record {
  base_ptr =
      add64 tile.tile_base_ptr (mul64 (mul64 chunk_id tile.tokens_per_chunk) tile.token_size);
  token_size = tile.token_size;
  size = tile.tokens_per_chunk;
  tile_id = tile.tile_id;
  chunk_id = chunk_id;
  global_token_offset =
      add32 (mul32 tile.tile_id tile.tokens_per_tile) (mul32 chunk_id tile.tokens_per_chunk);
  lane_id = lane;
}

-- The view that the compute warp of a chunk builds, in both tile loops.
unfoldable pub chunk_view : ℕ → ℕ → ℕ → ℕ → ℕ → ℕ → ℕ → ChunkView
chunk_view gpu_buffer tile_id my_chunk C T token_size lane =
    let first = add32 (mul32 tile_id T) (mul32 my_chunk C) in
    record {
      base_ptr = add64 gpu_buffer (mul64 first token_size);
      token_size = token_size;
      size = C;
      tile_id = tile_id;
      chunk_id = my_chunk;
      global_token_offset = first;
      lane_id = lane;
    }

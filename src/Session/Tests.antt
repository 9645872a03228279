-- ===== src/Session/Tests.antt =====
-- Concrete configurations.
use gfd.Base.{◌+◌, ◌*◌, ◌<◌, ◌≤◌, ◌≡◌, refl, true, false, none, arith}
use gfd.Tiled.{TiledQueue}
use gfd.Session.{
  WarpSpecConfig, round_down, auto_chunk, effective_tokens_per_chunk, total_tiles, chunks_per_tile,
  block_size, accepted, new_queue,
}
use gfd.Session.ChunkSize.{IsPowerOfTwo, effective_tokens_per_chunk_lem}
use gfd.Session.Validation.{new_queue_lem}

-- Tiles of 120 tokens of 64 KB each.
abbrev uneven : WarpSpecConfig
uneven = record {
  total_tokens = 1000;
  token_size = 65536;
  tokens_per_tile = 120;
  tokens_per_chunk = 0;
  num_blocks = 0;
  double_buffer = false;
  per_tile_mode = false;
}

-- Fifteen chunks in a tile, and blocks of 512 threads.
fifteen_chunks :
    (chunks_per_tile uneven ≡ 15) × (block_size uneven ≡ 512) × (accepted uneven ≡ true)
unfolding chunks_per_tile block_size accepted effective_tokens_per_chunk auto_chunk round_down
fifteen_chunks = (refl, refl, refl)

effective_tokens_per_chunk_lem_example :
    let chunk = effective_tokens_per_chunk uneven in
    IsPowerOfTwo chunk × (chunk ≤ 120) × (120 < 16 * chunk)
effective_tokens_per_chunk_lem_example =
    effective_tokens_per_chunk_lem uneven refl refl (omega arith) (omega arith)

abbrev allocated : TiledQueue
allocated = record {
  base = record {
    entries = λ p. record {
      src_addr = 0;
      dst_addr = 0;
      size = 0;
      flags = 0;
      user_data = 0;
      sequence = 0;
    };
    write_idx = 0;
    read_idx = 0;
    done_idx = 0;
  };
  scheduler = record {
    next_tile = 0;
    total_tiles = 8;
    tokens_per_tile = 120;
    tokens_per_chunk = 8;
    chunks_per_tile = 15;
    token_size = 65536;
  };
  tile_chunk_done = λ t. 0;
  d_tile_chunk_done = none;
}

new_queue_lem_example :
    let s = allocated.scheduler in
    (0 < s.tokens_per_chunk)
    × (s.chunks_per_tile * s.tokens_per_chunk ≡ s.tokens_per_tile)
    × (s.total_tiles * s.tokens_per_tile ≤ 1000)
    × (1000 < s.total_tiles * s.tokens_per_tile + s.tokens_per_tile)
    × (s.next_tile ≡ 0)
    × (s.token_size ≡ 65536)
unfolding new_queue accepted total_tiles chunks_per_tile effective_tokens_per_chunk auto_chunk
    round_down
new_queue_lem_example = new_queue_lem uneven false allocated refl

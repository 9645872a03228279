-- ===== src/Tiled/Tests.antt =====
-- Concrete runs of include/gfd/device_primitives.cuh.
use gfd.Base.{ℕ, ◌+◌, ◌*◌, ◌/◌, ◌%◌, ◌^◌, ◌<◌, ◌≡◌, ◌≢◌, arith, ◌==◌, has_flag, none}
use gfd.Queue.{place, flag_last_in_tile}
use gfd.Tiled.{TiledQueue, submit_chunk, submit_tile}
use gfd.Tiled.Chunks.{submit_chunk_publishes}
use gfd.Tiled.Equivalence.{submit_tile_as_chunks, chunk_loop}

abbrev tiles : TiledQueue
tiles = record {
  base = record {
    entries = λ p. record {
      src_addr = 0;
      dst_addr = 0;
      size = 0;
      flags = 0;
      user_data = 0;
      sequence = 0;
    };
    write_idx = 16386;
    read_idx = 16000;
    done_idx = 16000;
  };
  scheduler = record {
    next_tile = 3;
    total_tiles = 8;
    tokens_per_tile = 8;
    tokens_per_chunk = 4;
    chunks_per_tile = 2;
    token_size = 64;
  };
  tile_chunk_done = λ t. 0;
  d_tile_chunk_done = none;
}

submit_chunk_publishes_example :
    let tq' = submit_chunk tiles 16382 3 1 4 8 4096 65536 64 in
    let d = tq'.base.entries (place (16382 + 3)) in
    (d.src_addr ≡ 4096 + 31 * 64)
    × (d.dst_addr ≡ 65536 + 31 * 64)
    × (d.size ≡ 64)
    × (d.user_data / 2 ^ 32 ≡ 3)
    × (d.user_data % 2 ^ 32 ≡ 31)
    × (has_flag d.flags flag_last_in_tile ≡ (3 + 1 == 4))
    × (d.sequence ≡ 16382 + 3 + 1)
    × ((p : ℕ)
        → ((i : ℕ) → i < 4 → place (16382 + i) ≢ p)
        → tq'.base.entries p ≡ tiles.base.entries p)
submit_chunk_publishes_example =
    submit_chunk_publishes tiles 16382 3 1 4 8 4096 65536 64 3 (omega arith) (omega arith)
      (omega arith) (omega arith) (omega arith) (omega arith)

submit_tile_as_chunks_example :
    (submit_tile tiles 16382 3 (2 * 4) 4 4096 65536 64).base.entries 1
    ≡ (chunk_loop 16382 3 4 (2 * 4) 4096 65536 64 2 0 tiles).base.entries 1
submit_tile_as_chunks_example =
    submit_tile_as_chunks tiles 16382 3 2 4 4096 65536 64 1 (omega arith) (omega arith)

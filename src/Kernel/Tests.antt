-- ===== src/Kernel/Tests.antt =====
-- The third chunk of the second tile.
use gfd.Base.{◌+◌, ◌*◌, ◌≡◌, refl, arith}
use gfd.Queue.{Descriptor, add64, mul64}
use gfd.Tiled.{chunk_entry}
use gfd.Kernel.{TileContext, data_ptr, global_idx, get_chunk, chunk_view}
use gfd.Kernel.Views.{chunk_view-chunk_entry}

abbrev second_tile : TileContext
second_tile = record {
  tile_id = 1;
  tokens_per_tile = 16;
  chunks_per_tile = 4;
  tokens_per_chunk = 4;
  tile_base_ptr = 9216;
  token_size = 64;
}

abbrev empty : Descriptor
empty = record { src_addr = 0; dst_addr = 0; size = 0; flags = 0; user_data = 0; sequence = 0 }

chunk_view-chunk_entry_example :
    let view = chunk_view 8192 1 2 4 16 64 5 in
    let entry = chunk_entry 1 2 4 16 65536 8192 64 3 empty in
    (data_ptr view 3 ≡ entry.dst_addr)
    × (data_ptr (get_chunk second_tile 2 5) 3 ≡ entry.dst_addr)
    × (entry.src_addr ≡ add64 65536 (mul64 (global_idx view 3) 64))
chunk_view-chunk_entry_example =
    chunk_view-chunk_entry second_tile 8192 65536 2 5 3 empty (omega arith) (omega arith) refl

-- Token 27 of 64 bytes each
third_chunk : data_ptr (chunk_view 8192 1 2 4 16 64 5) 3 ≡ 8192 + 27 * 64
unfolding data_ptr chunk_view
third_chunk = refl

-- ===== src/Kernel/Views.antt =====
-- A view shows the tokens where the transfer warp has them copied to.
use native.Mathlib.Nat.{add-mul}
use gfd.Base.{ℕ, ◌+◌, ◌*◌, ◌^◌, ◌<◌, ◌≡◌, ap, ◌∙◌, arith, sym}
use gfd.Queue.{Descriptor, add64, mul64, add32, mul32}
use gfd.Tiled.{chunk_entry}
use gfd.Kernel.{TileContext, data_ptr, global_idx, get_chunk, chunk_view}

-- Address arithmetic of two parts.
add64-mul64 :
    (base first i size : ℕ)
    → add64 (add64 base (mul64 first size)) (mul64 i size) ≡ add64 base (mul64 (first + i) size)
add64-mul64 base first i size = omega (arith, add-mul first i size)

-- The pointer to a token of the chunk that a compute warp is given is the destination of the
-- descriptor that the transfer warp writes for the token, and so is its index; and the view that a
-- tile's context gives of the chunk points to the same place if the tile lies at its place in the
-- buffer. The tokens have 32-bit indices, and `i` is one of the chunk.
pub chunk_view-chunk_entry :
    (tile : TileContext) (gpu_buffer cpu_base my_chunk lane i : ℕ) (d : Descriptor)
    → tile.tile_id * tile.tokens_per_tile + my_chunk * tile.tokens_per_chunk + tile.tokens_per_chunk
      < 2 ^ 32
    → i < tile.tokens_per_chunk
    → tile.tile_base_ptr
      ≡ add64 gpu_buffer (mul64 (tile.tile_id * tile.tokens_per_tile) tile.token_size)
    → let view =
        chunk_view gpu_buffer tile.tile_id my_chunk tile.tokens_per_chunk tile.tokens_per_tile
          tile.token_size lane in
      let entry =
        chunk_entry tile.tile_id my_chunk tile.tokens_per_chunk tile.tokens_per_tile cpu_base
          gpu_buffer tile.token_size i d in
      (data_ptr view i ≡ entry.dst_addr)
      × (data_ptr (get_chunk tile my_chunk lane) i ≡ entry.dst_addr)
      × (entry.src_addr ≡ add64 cpu_base (mul64 (global_idx view i) tile.token_size))
unfolding data_ptr global_idx get_chunk chunk_view chunk_entry
chunk_view-chunk_entry tile gpu cpu k lane i d h hi at =
    let row = tile.tile_id * tile.tokens_per_tile in
    let start = k * tile.tokens_per_chunk in
    let size = tile.token_size in
    let first : add32 (mul32 tile.tile_id tile.tokens_per_tile) (mul32 k tile.tokens_per_chunk)
        ≡ row + start =
      omega arith in
    let index : add32 (mul32 tile.tile_id tile.tokens_per_tile)
          (add32 (mul32 k tile.tokens_per_chunk) i)
        ≡ row + start + i =
      omega arith in
    let same : add32 (row + start) i ≡ row + start + i = omega arith in
    let wide : mul64 k tile.tokens_per_chunk ≡ start = omega arith in
    let place = λ (x : ℕ). add64 gpu (mul64 x size) in
    let onward = λ (x : ℕ). add64 x (mul64 i size) in
    let found = add64-mul64 gpu (row + start) i size ∙ ap place (sym index) in
    (
      ap (λ x. onward (place x)) first ∙ found,
      ap (λ x. onward (add64 x (mul64 (mul64 k tile.tokens_per_chunk) size))) at
          ∙ ap (λ x. onward (add64 (place row) (mul64 x size))) wide
          ∙ ap onward (add64-mul64 gpu row start size)
          ∙ found,
      ap (λ x. add64 cpu (mul64 x size)) (index ∙ sym same ∙ ap (λ x. add32 x i) (sym first)),
    )

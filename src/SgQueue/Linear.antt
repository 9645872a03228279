-- ===== src/SgQueue/Linear.antt =====
-- include/gfd/sg_task_queue.h, linear_to_sg_entries: linear workloads on the scatter-gather queue.
use gfd.Base.{ℕ, ◌+◌, ◌*◌, ◌^◌, ◌<◌, ◌≡◌, ap, ◌∙◌, arith}
use gfd.Queue.{Descriptor, add64, mul64, add32, mul32}
use gfd.Tiled.{chunk_entry}
use gfd.SgQueue.{DeviceSgEntry, linear_to_sg_entries}
use gfd.SgQueue.Loops.{for_range-at}

-- The entries made for the tokens of a chunk name the copies that write_chunk writes for it: the same
-- source, destination and size for each token. The tokens have 32-bit indices.
pub linear_as_chunk :
    (entries : ℕ → DeviceSgEntry) (tile_id chunk_id C T cpu_base gpu_base token_size tag j : ℕ)
    (d : Descriptor)
    → tile_id * T + chunk_id * C + C < 2 ^ 32
    → j < C
    → let e =
        linear_to_sg_entries entries cpu_base gpu_base token_size
          (tile_id * T + chunk_id * C)
          C
          tag
          j in
      let c = chunk_entry tile_id chunk_id C T cpu_base gpu_base token_size j d in
      (e.src_addr ≡ c.src_addr) × (e.dst_addr ≡ c.dst_addr) × (e.size ≡ c.size)
unfolding linear_to_sg_entries chunk_entry
linear_as_chunk entries tile_id chunk_id C T cpu_base gpu_base token_size tag j d h hj =
    let start = tile_id * T + chunk_id * C in
    let value : ℕ → DeviceSgEntry = λ i. record {
      src_addr = add64 cpu_base (mul64 (add32 start i) token_size);
      dst_addr = add64 gpu_base (mul64 (add32 start i) token_size);
      size = token_size;
      tag = tag;
    } in
    let at =
      for_range-at (λ i. i) value C 0 j entries (omega arith) (omega arith) (λ i le lt e. e) in
    let index : add32 start j ≡ add32 (mul32 tile_id T) (add32 (mul32 chunk_id C) j) =
      omega arith in
    (
      ap (λ (x : DeviceSgEntry). x.src_addr) at
          ∙ ap (λ k. add64 cpu_base (mul64 k token_size)) index,
      ap (λ (x : DeviceSgEntry). x.dst_addr) at
          ∙ ap (λ k. add64 gpu_base (mul64 k token_size)) index,
      ap (λ (x : DeviceSgEntry). x.size) at,
    )

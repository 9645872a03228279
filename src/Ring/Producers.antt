-- ===== src/Ring/Producers.antt =====
-- The producers of include/gfd/device.cuh and include/gfd/device_primitives.cuh fill a descriptor in
-- the way the steps of the ring ask for.
use gfd.Base.{ℕ, refl}
use gfd.Device.{fill}
use gfd.Tiled.{chunk_entry, tile_entry}
use gfd.Ring.{IsFill}

pub fill-IsFill :
    (token_idx src gpu_dst token_size num_tokens user_data : ℕ)
    → IsFill (fill token_idx src gpu_dst token_size num_tokens user_data)
unfolding fill
fill-IsFill token_idx src gpu_dst token_size num_tokens user_data = record {
  keeps = λ d. refl;
  overwrites = λ d e. refl;
}

pub chunk_entry-IsFill :
    (tile_id chunk_id C T cpu_base gpu_base token_size i : ℕ)
    → IsFill (chunk_entry tile_id chunk_id C T cpu_base gpu_base token_size i)
unfolding chunk_entry
chunk_entry-IsFill tile_id chunk_id C T cpu_base gpu_base token_size i = record {
  keeps = λ d. refl;
  overwrites = λ d e. refl;
}

pub tile_entry-IsFill :
    (tile_id T C cpu_base gpu_base token_size i : ℕ)
    → IsFill (tile_entry tile_id T C cpu_base gpu_base token_size i)
unfolding tile_entry
tile_entry-IsFill tile_id T C cpu_base gpu_base token_size i = record {
  keeps = λ d. refl;
  overwrites = λ d e. refl;
}

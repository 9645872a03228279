-- ===== src/Queue.antt =====
-- include/gfd/descriptor_queue.h and include/gfd/tiled_queue.h: the descriptor ring and the words
-- that the GPU and the CPU share beside it. A slot index is a free-running 64-bit counter.
use Prim.Native.Nat.{bit_or}
use gfd.Base.{ℕ, ◌+◌, ◌*◌, ◌%◌, ◌^◌, ◌-◌}
pub use Prim.Native.Nat.{bit_or}

abbrev pub queue_size : ℕ
queue_size = 16384

abbrev pub max_batch_size : ℕ
max_batch_size = 8192

abbrev pub batch_threshold : ℕ
batch_threshold = 4096

abbrev pub batch_threshold_small : ℕ
batch_threshold_small = 1024

abbrev pub flag_none : ℕ
flag_none = 0

abbrev pub flag_last_in_batch : ℕ
flag_last_in_batch = 1

abbrev pub flag_urgent : ℕ
flag_urgent = 2

abbrev pub flag_last_in_tile : ℕ
flag_last_in_tile = 4

abbrev pub flag_last_chunk_in_tile : ℕ
flag_last_chunk_in_tile = 8

abbrev pub max_tiles : ℕ
max_tiles = 1024

-- `uint64_t` and `uint32_t` sums and products, and `uint64_t` subtraction.
abbrev pub add64 : ℕ → ℕ → ℕ
add64 a b = (a + b) % 2 ^ 64

abbrev pub mul64 : ℕ → ℕ → ℕ
mul64 a b = (a * b) % 2 ^ 64

abbrev pub sub64 : ℕ → ℕ → ℕ
sub64 a b = (a + 2 ^ 64 - b) % 2 ^ 64

abbrev pub add32 : ℕ → ℕ → ℕ
add32 a b = (a + b) % 2 ^ 32

abbrev pub mul32 : ℕ → ℕ → ℕ
mul32 a b = (a * b) % 2 ^ 32

-- `((uint64_t)hi << 32) | lo`: the operands share no bit.
abbrev pub pack : ℕ → ℕ → ℕ
pack hi lo = hi * 2 ^ 32 + lo

pub record Descriptor : Type 0 where
  pub src_addr : ℕ
  pub dst_addr : ℕ
  pub size : ℕ
  pub flags : ℕ
  pub user_data : ℕ
  pub sequence : ℕ

pub record DescriptorQueue : Type 0 where
  pub entries : ℕ → Descriptor
  pub write_idx : ℕ
  pub read_idx : ℕ
  pub done_idx : ℕ

-- `entries[slot % QUEUE_SIZE]`
abbrev pub place : ℕ → ℕ
place slot = slot % queue_size

pub record TileScheduler : Type 0 where
  pub next_tile : ℕ
  pub total_tiles : ℕ
  pub tokens_per_tile : ℕ
  pub tokens_per_chunk : ℕ
  pub chunks_per_tile : ℕ
  pub token_size : ℕ

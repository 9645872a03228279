-- ===== src/Driver.antt =====
-- The CUDA driver as the program sees it: the calls it receives, in order, and a result code for each,
-- which is a parameter. A trace has the newest call first.
pub mod Clock
use gfd.Base.{ℕ, List, [], ◌∷◌, Bool, ◌≡◌}

-- A stream of a copy engine's channel, or the stream for completion signals.
pub data Stream : Type 0 where
  channel : ℕ → Stream
  signal : Stream

-- An event of a channel, of a staging buffer, or of a batch of tiles.
pub data Event : Type 0 where
  channel_event : ℕ → Event
  staging_event : ℕ → Event
  tile_event : ℕ → Event

-- `SGEntry` of include/gfd/copy_engine.h
pub record SgEntry : Type 0 where
  pub dst : ℕ
  pub src : ℕ
  pub size : ℕ

pub data Call : Type 0 where
  ctx_push : Call
  ctx_pop : Call
  priority_range : Call
  stream_create : Stream → Call
  stream_synchronize : Stream → Call
  stream_destroy : Stream → Call
  event_create : Event → Call
  event_destroy : Event → Call
  event_record : Event → Stream → Call
  event_synchronize : Event → Call
  stream_wait_event : Stream → Event → Call
  memcpy_htod_async : SgEntry → Stream → Call

-- The result of the newest call of a trace, 0 for `CUDA_SUCCESS`.
abbrev pub Driver : Type 0
Driver = List Call → ℕ

-- The driver reports no error.
abbrev pub Succeeds : Driver → Type 0
Succeeds drv = (t : List Call) → drv t ≡ 0

-- ===== src/Ring.antt =====
-- The descriptor ring between its producers (device.cuh, device_primitives.cuh, sg_warp_spec.cuh) and
-- its one consumer, the polling loop of src/cpu_polling.cpp: the consumer's read of one entry, and the
-- two as a system of interleaved steps.
pub mod Protocol
pub mod Invariant
pub mod Producers
pub mod Fifo
pub mod Tests
use gfd.Base.{
  ℕ, ◌+◌, ◌<◌, ◌≤◌, ◌≡◌, ◌==◌, if◌then◌else◌, Option, none, some, update, List, ◌∷◌, [], ◌++◌,
}
use gfd.Queue.{Descriptor, DescriptorQueue, place, add64}

-- One entry of the polling loop: if the entry at `read_idx` carries the sequence word of its slot, it
-- is copied, its word cleared, and `read_idx` moved on.
unfoldable pub take_entry : DescriptorQueue → Option (Descriptor × DescriptorQueue)
take_entry q =
    let entry = q.entries (place q.read_idx) in
    if entry.sequence == add64 q.read_idx 1
    then some (
      entry,
      record q {
        entries = update q.entries (place q.read_idx) (record entry { sequence = 0 });
        read_idx = add64 q.read_idx 1;
      },
    )
    else none

-- A descriptor without its sequence word.
abbrev pub payload : Descriptor → Descriptor
payload d = record d { sequence = 0 }

-- How a producer fills in a descriptor: every field but the sequence word, whatever stood there.
pub record IsFill (change : Descriptor → Descriptor) : Type 0 where
  pub keeps : (d : Descriptor) → (change d).sequence ≡ d.sequence
  pub overwrites : (d e : Descriptor) → payload (change d) ≡ payload (change e)

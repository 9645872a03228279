-- ===== src/Polling.antt =====
-- src/cpu_polling.cpp, polling_loop: the one consumer of the descriptor ring. The loop is a machine that
-- makes one load of a sequence word in each step, so that the producers can act in between; a call of
-- flush_batch is logged, with what it is given.
pub mod Order
pub mod Bounds
pub mod Drain
pub mod Tests
use Prim.Native.Nat.{bit_and}
use gfd.Base.{
  ℕ, ◌+◌, Bool, true, false, ltb, leb, ◌==◌, ◌&&◌, ◌||◌, not, if◌then◌else◌, Option, none, some,
  List, [], ◌∷◌, ◌++◌, length,
}
use gfd.Queue.{
  Descriptor, DescriptorQueue, max_batch_size, batch_threshold, batch_threshold_small,
  flag_last_in_batch, flag_urgent, flag_last_in_tile, bit_or,
}
use gfd.Ring.{take_entry}

-- Where the thread is: at the head of the outer loop, between two entries of the inner loop, in the wait
-- for a gap with some loads made, in the drain, or past it.
pub data Pc : Type 0 where
  at_head : Pc
  reading : Pc
  gap : ℕ → Pc
  draining : Pc
  stopped : Pc

pub record Flush : Type 0 where
  pub entries : List Descriptor
  pub or_flags : ℕ
  pub cur_read : ℕ

-- `flushed` has the newest call first; `idle` counts the rounds that found no entry and no batch.
pub record Loop : Type 0 where
  pub pc : Pc
  pub queue : DescriptorQueue
  pub batch : List Descriptor
  pub adaptive_threshold : ℕ
  pub or_flags : ℕ
  pub flushed : List Flush
  pub idle : ℕ

abbrev pub gap_spin_limit : ℕ
gap_spin_limit = 4096

-- `(or_flags & flags) != 0`
abbrev pub has_any : ℕ → ℕ → Bool
has_any or_flags flags = not (bit_and or_flags flags == 0)

abbrev pub urgent_flags : ℕ
urgent_flags = 7

-- The call of flush_batch, which returns at once if the batch is empty.
abbrev pub flush_entries : List Descriptor → Loop → Loop
flush_entries [] s = s
flush_entries (d ∷ ds) s = record s {
  flushed =
      record { entries = d ∷ ds; or_flags = s.or_flags; cur_read = s.queue.read_idx } ∷ s.flushed;
  batch = [];
  or_flags = 0;
}

unfoldable pub flush : Loop → Loop
flush s = flush_entries s.batch s

-- One entry of the inner loop: the threshold is set by the first entry of a batch.
unfoldable pub read_entry : Descriptor → DescriptorQueue → Loop → Loop
read_entry entry queue s = record s {
  queue = queue;
  batch = s.batch ++ entry ∷ [];
  or_flags = bit_or s.or_flags entry.flags;
  adaptive_threshold =
      if length s.batch == 0
      then if leb entry.size 2048 then batch_threshold_small else batch_threshold
      else s.adaptive_threshold;
}

-- After the inner loop.
unfoldable pub finish : Loop → Loop
unfolding flush
finish s =
    let next = record s { pc = at_head } in
    if leb s.adaptive_threshold (length s.batch) || has_any s.or_flags urgent_flags
    then flush next
    else next

-- `per_tile` says whether a tiled or a scatter-gather queue is set.
unfoldable pub after_read : Bool → Loop → Loop
unfolding finish
after_read per_tile s =
    if leb s.adaptive_threshold (length s.batch)
      || leb max_batch_size (length s.batch)
      || (per_tile && has_any s.or_flags flag_last_in_tile)
    then finish s
    else record s { pc = reading }

unfoldable pub step_head : Bool → Loop → Loop
unfolding after_read read_entry
step_head per_tile s = elim (take_entry s.queue) [
  | some (entry, queue) ↦ after_read per_tile (read_entry entry queue s)
  | none ↦
      if ltb 0 (length s.batch) then record s { pc = gap 0 } else record s { idle = s.idle + 1 }
]

unfoldable pub step_reading : Bool → Loop → Loop
unfolding after_read read_entry finish
step_reading per_tile s = elim (take_entry s.queue) [
  | some (entry, queue) ↦ after_read per_tile (read_entry entry queue s)
  | none ↦ finish s
]

-- One load in the wait for the next entry; at the limit the batch is flushed without it.
unfoldable pub step_gap : ℕ → Loop → Loop
unfolding flush
step_gap spin s = elim (take_entry s.queue) [
  | some _ ↦ record s { pc = at_head }
  | none ↦
      if spin + 1 == gap_spin_limit
      then flush (record s { pc = at_head })
      else record s { pc = gap (spin + 1) }
]

-- One entry of the drain, which does not look at the flags; past the last one the rest is flushed.
unfoldable pub step_drain : Loop → Loop
unfolding flush
step_drain s = elim (take_entry s.queue) [
  | some (entry, queue) ↦
      let next = record s { queue = queue; batch = s.batch ++ entry ∷ [] } in
      if leb max_batch_size (length next.batch) then flush next else next
  | none ↦ flush (record s { pc = stopped })
]

abbrev pub dispatch : Bool → Bool → Pc → Loop → Loop
dispatch per_tile running at_head s =
    if running then step_head per_tile s else record s { pc = draining }
dispatch per_tile running reading s = step_reading per_tile s
dispatch per_tile running (gap spin) s = step_gap spin s
dispatch per_tile running draining s = step_drain s
dispatch per_tile running stopped s = s

-- `running` is what the load of `running_` at the head of the loop sees.
unfoldable pub poll_step : Bool → Bool → Loop → Loop
poll_step per_tile running s = dispatch per_tile running s.pc s

-- ===== src/Ring/Protocol.antt =====
-- The producers and the consumer as steps. A slot is reserved by the atomic addition to `write_idx`,
-- filled in once its place is free of older entries, committed, and taken in order of slots.
use gfd.Base.{ℕ, zero, suc, ◌+◌, ◌^◌, ◌<◌, ◌≡◌, some, update, List, [], ◌∷◌, ◌++◌}
use gfd.Queue.{Descriptor, DescriptorQueue, place, queue_size, add64}
use gfd.Ring.{take_entry, payload, IsFill}

pub data Phase : Type 0 where
  idle filled committed : Phase

-- The ring, with what the steps did so far: the phase of each slot, what was written to it, and what
-- the consumer took.
pub record World : Type 0 where
  pub ring : DescriptorQueue
  pub phase : ℕ → Phase
  pub content : ℕ → Descriptor
  pub taken : List Descriptor

abbrev pub blank : Descriptor
blank = record { src_addr = 0; dst_addr = 0; size = 0; flags = 0; user_data = 0; sequence = 0 }

-- `memset(queue, 0, sizeof)`
abbrev pub start : World
start = record {
  ring = record { entries = λ p. blank; write_idx = 0; read_idx = 0; done_idx = 0 };
  phase = λ s. Phase.idle;
  content = λ s. blank;
  taken = [];
}

abbrev pub reserved : World → ℕ → World
reserved w n = record w { ring = record (w.ring) { write_idx = add64 w.ring.write_idx n } }

abbrev pub written : World → ℕ → (Descriptor → Descriptor) → World
written w s change = record w {
  ring = record (w.ring) {
    entries = update w.ring.entries (place s) (change (w.ring.entries (place s)));
  };
  phase = update w.phase s Phase.filled;
  content = update w.content s (payload (change blank));
}

abbrev pub published : World → ℕ → World
published w s = record w {
  ring = record (w.ring) {
    entries =
        update w.ring.entries (place s)
          (record (w.ring.entries (place s)) { sequence = add64 s 1 });
  };
  phase = update w.phase s Phase.committed;
}

-- `write` waits for backpressure: `slot - read_idx < QUEUE_SIZE`. The counters stay below 2^64 - 1:
-- at 2^64 - 1 the expected word would wrap to 0, the word of an empty place.
pub data Step (w : World) : World → Type 0 where
  reserve : (n : ℕ) → w.ring.write_idx + n + 1 < 2 ^ 64 → Step w (reserved w n)
  write :
      (s : ℕ) (change : Descriptor → Descriptor)
      → IsFill change
      → w.phase s ≡ Phase.idle
      → s < w.ring.write_idx
      → s < w.ring.read_idx + queue_size
      → Step w (written w s change)
  commit : (s : ℕ) → w.phase s ≡ Phase.filled → Step w (published w s)
  take :
      (d : Descriptor) (q : DescriptorQueue)
      → take_entry w.ring ≡ some (d, q)
      → Step w (record w { ring = q; taken = w.taken ++ payload d ∷ [] })

pub data Reach : World → Type 0 where
  here : Reach start
  next : {v w : World} → Reach v → Step v w → Reach w

-- The contents of the slots below `n`, in order.
abbrev pub log : (ℕ → Descriptor) → ℕ → List Descriptor
log content zero = []
log content (suc n) = log content n ++ content n ∷ []

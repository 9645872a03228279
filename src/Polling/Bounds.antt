-- ===== src/Polling/Bounds.antt =====
-- The batch array of the polling loop is never overrun, and nothing urgent is left waiting in it.
use gfd.Base.{
  ℕ, ◌+◌, ◌<◌, ◌≤◌, ◌≡◌, refl, sym, ap, ◌∙◌, subst, Bool, true, false, arith, leb, ltb, ◌==◌, ◌||◌,
  ◌&&◌, inl, inr, List, [], ◌∷◌, ◌++◌, length, length-append, Bool-cases, Option-cases,
}
use gfd.Queue.{Descriptor, bit_or, DescriptorQueue, max_batch_size, flag_last_in_tile}
use gfd.Ring.{take_entry}
use gfd.Ring.Protocol.{World}
use gfd.Polling.{
  Pc, Loop, Flush, at_head, reading, gap, draining, stopped, flush, flush_entries, read_entry,
  finish, after_read, step_head, step_reading, step_gap, step_drain, poll_step, dispatch, has_any,
  urgent_flags, gap_spin_limit,
}
use gfd.Polling.Order.{Joint, boot, produce, poll}

abbrev IsFull : List Descriptor → Type 0
IsFull ds = (0 < length ds) × (length ds ≤ max_batch_size)

abbrev AllFull : List Flush → Type 0
AllFull [] = Unit {0}
AllFull (f ∷ fs) = IsFull f.entries × AllFull fs

-- While the loop waits for an entry the batch is short of its threshold and has no urgent entry; the
-- drain leaves room for one more entry; past it the batch is empty.
abbrev pub Fits : Pc → Loop → Type 0
Fits at_head s = (length s.batch < s.adaptive_threshold) × (has_any s.or_flags urgent_flags ≡ false)
Fits reading s = (length s.batch < s.adaptive_threshold) × (0 < length s.batch)
Fits (gap spin) s =
    (length s.batch < s.adaptive_threshold)
    × (has_any s.or_flags urgent_flags ≡ false)
    × (0 < length s.batch)
    × (spin < gap_spin_limit)
Fits draining s = length s.batch < max_batch_size
Fits stopped s = s.batch ≡ []

-- The flags of the entries, or-ed to `flags`.
abbrev pub all_flags : ℕ → List Descriptor → ℕ
all_flags flags [] = flags
all_flags flags (d ∷ ds) = all_flags (bit_or flags d.flags) ds

-- In the loop, but not in the drain, `or_flags` has the flags of all entries of the batch.
abbrev pub Collected : Pc → Loop → Type 0
Collected at_head s = s.or_flags ≡ all_flags 0 s.batch
Collected reading s = s.or_flags ≡ all_flags 0 s.batch
Collected (gap spin) s = s.or_flags ≡ all_flags 0 s.batch
Collected draining s = Unit {0}
Collected stopped s = Unit {0}

all_flags-append :
    (flags : ℕ) (ds : List Descriptor) (d : Descriptor)
    → all_flags flags (ds ++ d ∷ []) ≡ bit_or (all_flags flags ds) d.flags
all_flags-append flags [] d = refl
all_flags-append flags (e ∷ ds) d = all_flags-append (bit_or flags e.flags) ds d

pub record Bounded (s : Loop) : Type 0 where
  pub some_threshold : 0 < s.adaptive_threshold
  pub low_threshold : s.adaptive_threshold ≤ 4096
  pub fits : Fits s.pc s
  pub collected : Collected s.pc s
  pub full : AllFull s.flushed

record Flushed (s t : Loop) : Type 0 where
  pc : t.pc ≡ s.pc
  batch : t.batch ≡ []
  or_flags : t.or_flags ≡ 0
  threshold : t.adaptive_threshold ≡ s.adaptive_threshold
  full : AllFull t.flushed

flush_entries-Flushed :
    (ds : List Descriptor) (s : Loop)
    → 0 < length ds
    → length ds ≤ max_batch_size
    → AllFull s.flushed
    → Flushed s (flush_entries ds s)
flush_entries-Flushed [] s pos few full = absurd (omega arith)
flush_entries-Flushed (d ∷ ds) s pos few full = record {
  pc = refl;
  batch = refl;
  or_flags = refl;
  threshold = refl;
  full = ((pos, few), full);
}

flush-Flushed :
    (s : Loop)
    → 0 < length s.batch
    → length s.batch ≤ max_batch_size
    → AllFull s.flushed
    → Flushed s (flush s)
unfolding flush
flush-Flushed s pos few full = flush_entries-Flushed s.batch s pos few full

-- A flushed batch fits at the head of the loop.
Flushed-Bounded :
    (s t : Loop)
    → Flushed s t
    → s.pc ≡ at_head
    → 0 < s.adaptive_threshold
    → s.adaptive_threshold ≤ 4096
    → Bounded t
Flushed-Bounded s t f e pos low = record {
  some_threshold = omega (arith, f.threshold);
  low_threshold = omega (arith, f.threshold);
  fits =
      let short : length t.batch < t.adaptive_threshold =
        rw (f.batch) (omega (arith, f.threshold)) in
      let calm : has_any t.or_flags urgent_flags ≡ false = rw (f.or_flags) refl in
      rw (f.pc, e) (short, calm);
  collected =
      let known : t.or_flags ≡ all_flags 0 t.batch = f.or_flags ∙ sym (ap (all_flags 0) f.batch) in
      rw (f.pc, e) known;
  full = f.full;
}

Flushed-draining :
    (s t : Loop)
    → Flushed s t
    → s.pc ≡ draining
    → 0 < s.adaptive_threshold
    → s.adaptive_threshold ≤ 4096
    → Bounded t
Flushed-draining s t f e pos low = record {
  some_threshold = omega (arith, f.threshold);
  low_threshold = omega (arith, f.threshold);
  fits =
      let room : length t.batch < max_batch_size = rw (f.batch) (omega arith) in rw (f.pc, e) room;
  collected = rw (f.pc, e) tt;
  full = f.full;
}

module _ (s : Loop) (low : s.adaptive_threshold ≤ 4096) (pos : 0 < s.adaptive_threshold)
    (one : 0 < length s.batch) (few : length s.batch ≤ max_batch_size) (full : AllFull s.flushed)
    (known : s.or_flags ≡ all_flags 0 s.batch) where
  finish-Bounded : Bounded (finish s)
  unfolding finish
  finish-Bounded =
      let next : Loop = record s { pc = at_head } in
      elim (Bool-cases
        (leb s.adaptive_threshold (length s.batch) || has_any s.or_flags urgent_flags)) [
          | inl due ↦
              rw due
                (Flushed-Bounded next (flush next) (flush-Flushed next one few full) refl pos low)
          | inr more ↦ rw more (record {
            some_threshold = pos;
            low_threshold = low;
            fits = (ground (arith, more), ground (arith, more));
            collected = known;
            full = full;
          })
        ]

  after_read-Bounded : (per_tile : Bool) → Bounded (after_read per_tile s)
  unfolding after_read
  after_read-Bounded per_tile =
      elim (Bool-cases (
        leb s.adaptive_threshold (length s.batch)
        || leb max_batch_size (length s.batch)
        || (per_tile && has_any s.or_flags flag_last_in_tile))) [
          | inl due ↦ rw due finish-Bounded
          | inr more ↦ rw more (record {
            some_threshold = pos;
            low_threshold = low;
            fits = (ground (arith, more), one);
            collected = known;
            full = full;
          })
        ]

read-Bounded :
    (per_tile : Bool) (d : Descriptor) (q : DescriptorQueue) (s : Loop)
    → length s.batch < s.adaptive_threshold
    → s.or_flags ≡ all_flags 0 s.batch
    → Bounded s
    → Bounded (after_read per_tile (read_entry d q s))
unfolding read_entry
read-Bounded per_tile d q s short known b =
    let longer = length-append s.batch (d ∷ []) in
    let t = read_entry d q s in
    after_read-Bounded t (ground (arith, b.low_threshold)) (ground (arith, b.some_threshold))
      (omega (arith, longer)) (omega (arith, longer, b.low_threshold, short)) b.full
      (ap (λ flags. bit_or flags d.flags) known ∙ sym (all_flags-append 0 s.batch d)) per_tile

step_head-Bounded :
    (per_tile : Bool) (s : Loop) → s.pc ≡ at_head → Bounded s → Bounded (step_head per_tile s)
unfolding step_head
step_head-Bounded per_tile s e b =
    let f : Fits at_head s = subst (λ pc. Fits pc s) e b.fits in
    let known : Collected at_head s = subst (λ pc. Collected pc s) e b.collected in
    elim (Option-cases (take_entry s.queue)) [
      | inr ((d, q), seen) ↦ rw (seen, step_head) (read-Bounded per_tile d q s f.0 known b)
      | inl not_seen ↦
          rw (not_seen, step_head)
            (elim (Bool-cases (ltb 0 (length s.batch))) [
              | inl held ↦ rw held (record {
                some_threshold = b.some_threshold;
                low_threshold = b.low_threshold;
                fits = (f.0, f.1, ground (arith, held), omega arith);
                collected = known;
                full = b.full;
              })
              | inr empty ↦ rw empty (record {
                some_threshold = b.some_threshold;
                low_threshold = b.low_threshold;
                fits = rw e f;
                collected = rw e known;
                full = b.full;
              })
            ])
    ]

step_reading-Bounded :
    (per_tile : Bool) (s : Loop) → s.pc ≡ reading → Bounded s → Bounded (step_reading per_tile s)
unfolding step_reading
step_reading-Bounded per_tile s e b =
    let f : Fits reading s = subst (λ pc. Fits pc s) e b.fits in
    let known : Collected reading s = subst (λ pc. Collected pc s) e b.collected in
    elim (Option-cases (take_entry s.queue)) [
      | inr ((d, q), seen) ↦ rw (seen, step_reading) (read-Bounded per_tile d q s f.0 known b)
      | inl not_seen ↦
          rw (not_seen, step_reading)
            (finish-Bounded s b.low_threshold b.some_threshold f.1
              (omega (arith, f.0, b.low_threshold)) b.full known)
    ]

step_gap-Bounded : (spin : ℕ) (s : Loop) → s.pc ≡ gap spin → Bounded s → Bounded (step_gap spin s)
unfolding step_gap
step_gap-Bounded spin s e b =
    let f : Fits (gap spin) s = subst (λ pc. Fits pc s) e b.fits in
    let known : Collected (gap spin) s = subst (λ pc. Collected pc s) e b.collected in
    let next : Loop = record s { pc = at_head } in
    elim (Option-cases (take_entry s.queue)) [
      | inr (_, seen) ↦
          rw (seen, step_gap)
            (record {
              some_threshold = b.some_threshold;
              low_threshold = b.low_threshold;
              fits = (f.0, f.1);
              collected = known;
              full = b.full;
            })
      | inl not_seen ↦
          rw (not_seen, step_gap)
            (elim (Bool-cases (spin + 1 == gap_spin_limit)) [
              | inl over ↦ rw over (
                  Flushed-Bounded next (flush next)
                    (flush-Flushed next f.2 (omega (arith, f.0, b.low_threshold)) b.full) refl
                    b.some_threshold b.low_threshold)
              | inr more ↦ rw more (record {
                some_threshold = b.some_threshold;
                low_threshold = b.low_threshold;
                fits = (f.0, f.1, f.2, ground (arith, more, f.3));
                collected = known;
                full = b.full;
              })
            ])
    ]

-- Past the drain the batch is empty; it flushes nothing if it was before.
last_flush :
    (ds : List Descriptor) (s : Loop)
    → ds ≡ s.batch
    → length ds ≤ max_batch_size
    → AllFull s.flushed
    → s.pc ≡ stopped
    → let t = flush_entries ds s in
      (t.pc ≡ stopped)
      × (t.batch ≡ [])
      × (t.adaptive_threshold ≡ s.adaptive_threshold)
      × AllFull t.flushed
last_flush [] s e few full p = (p, sym e, refl, full)
last_flush (d ∷ ds) s e few full p = (p, refl, refl, ((omega arith, few), full))

step_drain-Bounded : (s : Loop) → s.pc ≡ draining → Bounded s → Bounded (step_drain s)
unfolding step_drain flush
step_drain-Bounded s e b =
    let f : Fits draining s = subst (λ pc. Fits pc s) e b.fits in
    elim (Option-cases (take_entry s.queue)) [
      | inr ((d, q), seen) ↦
          let next : Loop = record s { queue = q; batch = s.batch ++ d ∷ [] } in
          let longer = length-append s.batch (d ∷ []) in
          rw (seen, step_drain)
            (elim (Bool-cases (leb max_batch_size (length next.batch))) [
              | inl due ↦
                  let t =
                    flush-Flushed next (omega (arith, longer)) (omega (arith, longer, f)) b.full in
                  rw due (Flushed-draining next (flush next) t e b.some_threshold b.low_threshold)
              | inr more ↦ rw more (record {
                some_threshold = b.some_threshold;
                low_threshold = b.low_threshold;
                fits = rw e (ground (arith, more));
                collected = rw e tt;
                full = b.full;
              })
            ])
      | inl not_seen ↦
          let last : Loop = record s { pc = stopped } in
          let t = last_flush s.batch last refl (omega arith) b.full refl in
          rw (not_seen, step_drain)
            (record {
              some_threshold = omega (arith, t.2, b.some_threshold);
              low_threshold = omega (arith, t.2, b.low_threshold);
              fits = rw (t.0) (t.1);
              collected = rw (t.0) tt;
              full = t.3;
            })
    ]

dispatch-Bounded :
    (per_tile running : Bool) (pc : Pc) (s : Loop)
    → s.pc ≡ pc
    → Bounded s
    → Bounded (dispatch per_tile running pc s)
dispatch-Bounded per_tile true at_head s e b = step_head-Bounded per_tile s e b
dispatch-Bounded per_tile false at_head s e b =
    let f : Fits at_head s = subst (λ pc. Fits pc s) e b.fits in
    record {
      some_threshold = b.some_threshold;
      low_threshold = b.low_threshold;
      fits = omega (arith, f.0, b.low_threshold);
      collected = tt;
      full = b.full;
    }
dispatch-Bounded per_tile running reading s e b = step_reading-Bounded per_tile s e b
dispatch-Bounded per_tile running (gap spin) s e b = step_gap-Bounded spin s e b
dispatch-Bounded per_tile running draining s e b = step_drain-Bounded s e b
dispatch-Bounded per_tile running stopped s e b = b

ring-Bounded :
    (q : DescriptorQueue) (pc : Pc) (s : Loop)
    → s.pc ≡ pc
    → Bounded s
    → Fits pc (record s { queue = q })
ring-Bounded q at_head s e b = let f : Fits at_head s = subst (λ pc. Fits pc s) e b.fits in f
ring-Bounded q reading s e b = let f : Fits reading s = subst (λ pc. Fits pc s) e b.fits in f
ring-Bounded q (gap spin) s e b = let f : Fits (gap spin) s = subst (λ pc. Fits pc s) e b.fits in f
ring-Bounded q draining s e b = let f : Fits draining s = subst (λ pc. Fits pc s) e b.fits in f
ring-Bounded q stopped s e b = let f : Fits stopped s = subst (λ pc. Fits pc s) e b.fits in f

ring-Collected :
    (q : DescriptorQueue) (pc : Pc) (s : Loop)
    → Collected pc s
    → Collected pc (record s { queue = q })
ring-Collected q at_head s known = known
ring-Collected q reading s known = known
ring-Collected q (gap spin) s known = known
ring-Collected q draining s known = tt
ring-Collected q stopped s known = tt

-- In every reachable state: while the loop waits, the batch is short of its threshold, at most 4096, and
-- the flags of its entries, or-ed together, are `or_flags`, which at its head and in a gap has no urgent
-- flag; the drain has room for one more entry in the array of 8192, and past it the batch is empty; every
-- batch flushed has an entry and fits into the array.
pub Joint-Bounded : {per_tile : Bool} {w : World} {s : Loop} → Joint per_tile w s → Bounded s
unfolding poll_step
Joint-Bounded boot = record {
  some_threshold = omega arith;
  low_threshold = omega arith;
  fits = (omega arith, refl);
  collected = refl;
  full = tt;
}
Joint-Bounded (produce {w' = w'} {s = s} j st same) =
    let b = Joint-Bounded j in
    record {
      some_threshold = b.some_threshold;
      low_threshold = b.low_threshold;
      fits = ring-Bounded w'.ring s.pc s refl b;
      collected = ring-Collected w'.ring s.pc s b.collected;
      full = b.full;
    }
Joint-Bounded {per_tile} (poll {w} {s} running j) =
    dispatch-Bounded per_tile running s.pc s refl (Joint-Bounded j)

-- ===== src/Polling/Order.antt =====
-- What the polling loop hands to flush_batch, together with its batch: the entries of the ring, in order.
use gfd.Base.{
  ℕ, ◌+◌, ◌<◌, ◌≡◌, refl, sym, ap, subst, ◌∙◌, Bool, true, false, arith, leb, ltb, ◌==◌, ◌||◌, ◌&&◌,
  some, inl, inr, List, [], ◌∷◌, ◌++◌, length, map, Bool-cases, Option-cases,
}
use mathlib.Core.List.{append-nil, append_assoc, map-append}
use gfd.Queue.{Descriptor, DescriptorQueue, max_batch_size, flag_last_in_tile}
use gfd.Ring.{take_entry, payload}
use gfd.Ring.Protocol.{World, Step, Reach, here, next, take, start, log, committed}
use gfd.Ring.Fifo.{taken_in_order}
use gfd.Polling.{
  Pc, Loop, Flush, at_head, reading, gap, draining, stopped, flush, flush_entries, read_entry,
  finish, after_read, step_head, step_reading, step_gap, step_drain, poll_step, dispatch, has_any,
  urgent_flags, gap_spin_limit,
}

abbrev pub entries_of : List Flush → List Descriptor
entries_of [] = []
entries_of (f ∷ older) = entries_of older ++ f.entries

-- All entries taken so far: those flushed, then those of the batch.
abbrev pub handled : Loop → List Descriptor
handled s = entries_of s.flushed ++ s.batch

-- A step takes no entry, or the one at the head of the ring.
data Took (s s' : Loop) : Type 0 where
  nothing : s'.queue ≡ s.queue → handled s' ≡ handled s → Took s s'
  head :
      (d : Descriptor) (q : DescriptorQueue)
      → take_entry s.queue ≡ some (d, q)
      → s'.queue ≡ q
      → handled s' ≡ handled s ++ d ∷ []
      → Took s s'

flush_entries-handled :
    (batch : List Descriptor) (s : Loop)
    → batch ≡ s.batch
    → (handled (flush_entries batch s) ≡ handled s) × ((flush_entries batch s).queue ≡ s.queue)
flush_entries-handled [] s e = (refl, refl)
flush_entries-handled (d ∷ ds) s e =
    (append-nil (entries_of s.flushed ++ d ∷ ds) ∙ ap (◌++◌ (entries_of s.flushed)) e, refl)

flush-handled : (s : Loop) → (handled (flush s) ≡ handled s) × ((flush s).queue ≡ s.queue)
unfolding flush
flush-handled s = flush_entries-handled s.batch s refl

finish-handled : (s : Loop) → (handled (finish s) ≡ handled s) × ((finish s).queue ≡ s.queue)
unfolding finish
finish-handled s =
    elim (Bool-cases
      (leb s.adaptive_threshold (length s.batch) || has_any s.or_flags urgent_flags)) [
        | inl full ↦ rw full (flush-handled (record s { pc = at_head }))
        | inr more ↦ rw more (refl, refl)
      ]

after_read-handled :
    (per_tile : Bool) (s : Loop)
    → (handled (after_read per_tile s) ≡ handled s) × ((after_read per_tile s).queue ≡ s.queue)
unfolding after_read
after_read-handled per_tile s =
    elim (Bool-cases (
      leb s.adaptive_threshold (length s.batch)
      || leb max_batch_size (length s.batch)
      || (per_tile && has_any s.or_flags flag_last_in_tile))) [
        | inl full ↦ rw full (finish-handled s)
        | inr more ↦ rw more (refl, refl)
      ]

read_entry-Took :
    (per_tile : Bool) (s : Loop) (d : Descriptor) (q : DescriptorQueue)
    → take_entry s.queue ≡ some (d, q)
    → Took s (after_read per_tile (read_entry d q s))
unfolding read_entry
read_entry-Took per_tile s d q e =
    let h = after_read-handled per_tile (read_entry d q s) in
    Took.head d q e h.1 (h.0 ∙ sym (append_assoc (entries_of s.flushed) s.batch (d ∷ [])))

step_head-Took : (per_tile : Bool) (s : Loop) → Took s (step_head per_tile s)
unfolding step_head
step_head-Took per_tile s = elim (Option-cases (take_entry s.queue)) [
  | inr ((d, q), e) ↦ rw (e, step_head) (read_entry-Took per_tile s d q e)
  | inl e ↦
      rw (e, step_head)
        (elim (Bool-cases (ltb 0 (length s.batch))) [
          | inl held ↦ rw held (Took.nothing refl refl)
          | inr empty ↦ rw empty (Took.nothing refl refl)
        ])
]

step_reading-Took : (per_tile : Bool) (s : Loop) → Took s (step_reading per_tile s)
unfolding step_reading
step_reading-Took per_tile s = elim (Option-cases (take_entry s.queue)) [
  | inr ((d, q), e) ↦ rw (e, step_reading) (read_entry-Took per_tile s d q e)
  | inl e ↦ let h = finish-handled s in rw (e, step_reading) (Took.nothing h.1 h.0)
]

step_gap-Took : (spin : ℕ) (s : Loop) → Took s (step_gap spin s)
unfolding step_gap
step_gap-Took spin s = elim (Option-cases (take_entry s.queue)) [
  | inr ((d, q), e) ↦ rw (e, step_gap) (Took.nothing refl refl)
  | inl e ↦
      rw (e, step_gap)
        (elim (Bool-cases (spin + 1 == gap_spin_limit)) [
          | inl over ↦
              let h = flush-handled (record s { pc = at_head }) in rw over (Took.nothing h.1 h.0)
          | inr more ↦ rw more (Took.nothing refl refl)
        ])
]

step_drain-Took : (s : Loop) → Took s (step_drain s)
unfolding step_drain
step_drain-Took s = elim (Option-cases (take_entry s.queue)) [
  | inr ((d, q), e) ↦
      let next : Loop = record s { queue = q; batch = s.batch ++ d ∷ [] } in
      let joined = sym (append_assoc (entries_of s.flushed) s.batch (d ∷ [])) in
      rw (e, step_drain)
        (elim (Bool-cases (leb max_batch_size (length next.batch))) [
          | inl full ↦ let h = flush-handled next in rw full (Took.head d q e h.1 (h.0 ∙ joined))
          | inr more ↦ rw more (Took.head d q e refl joined)
        ])
  | inl e ↦
      let h = flush-handled (record s { pc = stopped }) in rw (e, step_drain) (Took.nothing h.1 h.0)
]

dispatch-Took :
    (per_tile running : Bool) (pc : Pc) (s : Loop) → Took s (dispatch per_tile running pc s)
dispatch-Took per_tile true at_head s = step_head-Took per_tile s
dispatch-Took per_tile false at_head s = Took.nothing refl refl
dispatch-Took per_tile running reading s = step_reading-Took per_tile s
dispatch-Took per_tile running (gap spin) s = step_gap-Took spin s
dispatch-Took per_tile running draining s = step_drain-Took s
dispatch-Took per_tile running stopped s = Took.nothing refl refl

-- The world after a step of the poller: its ring is the poller's.
abbrev pub polled : World → Loop → World
polled w s = record w { ring = s.queue; taken = map payload (handled s) }

abbrev pub begin : Loop
begin = record {
  pc = at_head;
  queue = start.ring;
  batch = [];
  adaptive_threshold = 4096;
  or_flags = 0;
  flushed = [];
  idle = 0;
}

-- The poller between the producers: they act on the ring in any order, and `running` may change at
-- any time.
pub data Joint (per_tile : Bool) : World → Loop → Type 0 where
  boot : Joint per_tile start begin
  produce :
      {w w' : World} {s : Loop}
      → Joint per_tile w s
      → Step w w'
      → w'.taken ≡ w.taken
      → Joint per_tile w' (record s { queue = w'.ring })
  poll :
      {w : World} {s : Loop} (running : Bool)
      → Joint per_tile w s
      → Joint per_tile (polled w (poll_step per_tile running s)) (poll_step per_tile running s)

pub record Follows (w : World) (s : Loop) : Type 0 where
  pub reach : Reach w
  pub ring : s.queue ≡ w.ring
  pub taken : w.taken ≡ map payload (handled s)

Took-Follows : (w : World) (s s' : Loop) → Follows w s → Took s s' → Follows (polled w s') s'
Took-Follows w s s' f (Took.nothing q h) =
    let same : w ≡ polled w s' = ground (arith, q, f.ring, f.taken, ap (map payload) h) in
    record { reach = subst Reach same f.reach; ring = refl; taken = refl }
Took-Follows w s s' f (Took.head d q e q' h) =
    let seen : take_entry w.ring ≡ some (d, q) = ap take_entry (sym f.ring) ∙ e in
    let w' : World = record w { ring = q; taken = w.taken ++ payload d ∷ [] } in
    let more : w'.taken ≡ map payload (handled s') =
      ap (λ (l : List Descriptor). l ++ payload d ∷ []) f.taken
      ∙ sym (map-append payload (handled s) (d ∷ []))
      ∙ ap (map payload) (sym h) in
    let same : w' ≡ polled w s' = ground (arith, q', more) in
    record { reach = subst Reach same (next f.reach (take d q seen)); ring = refl; taken = refl }

pub Joint-Follows : {per_tile : Bool} {w : World} {s : Loop} → Joint per_tile w s → Follows w s
unfolding poll_step
Joint-Follows boot = record { reach = here; ring = refl; taken = refl }
Joint-Follows (produce j st same) =
    let f = Joint-Follows j in
    record { reach = next f.reach st; ring = refl; taken = same ∙ f.taken }
Joint-Follows {per_tile} {s = s'} (poll {w} {s} running j) =
    Took-Follows w s s' (Joint-Follows j) (dispatch-Took per_tile running s.pc s)

-- However producers and poller interleave: what was given to flush_batch, then the batch, are the
-- contents of the slots below `read_idx`, each once, in slot order, and each was committed.
pub handed_over :
    {per_tile : Bool} {w : World} {s : Loop}
    → Joint per_tile w s
    → (map payload (handled s) ≡ log w.content s.queue.read_idx)
      × ((k : ℕ) → k < s.queue.read_idx → w.phase k ≡ committed)
handed_over j =
    let f = Joint-Follows j in
    let t = taken_in_order f.reach in
    let at = ap (λ (q : DescriptorQueue). q.read_idx) f.ring in
    (sym f.taken ∙ t.0 ∙ ap (log _) (sym at), λ k h. t.1 k (omega (arith, at)))

-- ===== src/Ring/Fifo.antt =====
-- Nothing is lost, repeated, torn or reordered on the way through the ring.
use gfd.Base.{ℕ, ◌<◌, ◌≡◌, refl, ap, ◌∙◌, some, arith}
use gfd.Queue.{Descriptor, DescriptorQueue, place}
use gfd.Ring.{take_entry, payload}
use gfd.Ring.Protocol.{World, committed, Reach, log}
use gfd.Ring.Invariant.{Inv, Reach-Inv, head_phase, take_entry-some, taken_ring}

-- However the producers and the poller interleave, the poller has taken the contents of the slots
-- below `read_idx`, each once and in order of slots, and each was committed by its producer.
pub taken_in_order :
    {w : World}
    → Reach w
    → (w.taken ≡ log w.content w.ring.read_idx)
      × ((s : ℕ) → s < w.ring.read_idx → w.phase s ≡ committed)
taken_in_order r = let v = Reach-Inv r in (v.in_order, v.consumed)

-- The poller takes an entry exactly when the slot at `read_idx` has been committed, and what it takes
-- is then the whole of what the producer wrote there.
pub takes_committed :
    {w : World}
    → Reach w
    → ((d : Descriptor) (q : DescriptorQueue)
        → take_entry w.ring ≡ some (d, q)
        → (w.phase w.ring.read_idx ≡ committed) × (payload d ≡ w.content w.ring.read_idx))
      × (w.phase w.ring.read_idx ≡ committed
          → (d : Descriptor) × (q : DescriptorQueue) × (take_entry w.ring ≡ some (d, q)))
unfolding take_entry taken_ring
takes_committed {w} r = (
  λ d q h. seen d q h,
  λ e. (
    w.ring.entries (place w.ring.read_idx),
    taken_ring w.ring,
    ground
        (arith, ((v.fits w.ring.read_idx (omega arith) (omega arith)).2 e).0, v.ordered, v.bounded),
  ),
)
  where
    v : Inv w
    v = Reach-Inv r

    seen :
        (d : Descriptor) (q : DescriptorQueue)
        → take_entry w.ring ≡ some (d, q)
        → (w.phase w.ring.read_idx ≡ committed) × (payload d ≡ w.content w.ring.read_idx)
    seen d q h =
        let s = take_entry-some w.ring d q h in
        let ready =
          head_phase w v (w.phase w.ring.read_idx) refl
            (omega (arith, s.0, v.ordered, v.bounded)) in
        (ready, ap payload s.1 ∙ ((v.fits w.ring.read_idx (omega arith) (omega arith)).2 ready).1)

-- ===== src/Polling/Drain.antt =====
-- The drain ends, and leaves nothing that was committed.
use gfd.Base.{
  ℕ, zero, suc, ◌+◌, ◌-◌, ◌<◌, ◌≡◌, refl, sym, ap, subst, ◌∙◌, Bool, false, arith, leb, none, some,
  ◌⊎◌, inl, inr, List, [], ◌∷◌, ◌++◌, length, map, Bool-cases, Option-cases, dec_lt,
}
use mathlib.Core.List.{append-nil}
use gfd.Queue.{Descriptor, DescriptorQueue, max_batch_size}
use gfd.Ring.{take_entry, payload}
use gfd.Ring.Protocol.{World, Phase, log, idle, committed}
use gfd.Ring.Invariant.{Reach-Inv, take_entry-some, taken_ring}
use gfd.Ring.Fifo.{takes_committed}
use gfd.Polling.{Loop, dispatch, draining, stopped, flush, flush_entries, step_drain, poll_step}
use gfd.Polling.Order.{Joint, poll, polled, entries_of, handled, handed_over, Joint-Follows}
use gfd.Polling.Bounds.{Fits, Joint-Bounded}

-- Steps of the poller alone, after `running_` was cleared.
unfoldable pub steps : Bool → ℕ → Loop → Loop
steps per_tile zero s = s
steps per_tile (suc n) s = steps per_tile n (poll_step per_tile false s)

steps-stopped : (per_tile : Bool) (n : ℕ) (s : Loop) → s.pc ≡ stopped → steps per_tile n s ≡ s
unfolding steps poll_step
steps-stopped per_tile zero s e = refl
steps-stopped per_tile (suc n) s e =
    let same : poll_step per_tile false s ≡ s = rw (e, poll_step) refl in
    ap (steps per_tile n) same ∙ steps-stopped per_tile n s e

flush_entries-pc :
    (ds : List Descriptor) (s : Loop)
    → ((flush_entries ds s).pc ≡ s.pc) × ((flush_entries ds s).queue ≡ s.queue)
flush_entries-pc [] s = (refl, refl)
flush_entries-pc (d ∷ ds) s = (refl, refl)

-- A step of the drain ends it at the first empty place, and else goes on with the rest of the ring.
drain_step :
    (s : Loop)
    → s.pc ≡ draining
    → ((take_entry s.queue ≡ none)
        × ((step_drain s).pc ≡ stopped)
        × ((step_drain s).queue ≡ s.queue))
      ⊎ ((d : Descriptor) × (q : DescriptorQueue) × (take_entry s.queue ≡ some (d, q))
          × ((step_drain s).pc ≡ draining)
          × ((step_drain s).queue ≡ q))
unfolding step_drain flush
drain_step s e = elim (Option-cases (take_entry s.queue)) [
  | inl not_seen ↦
      let last = flush_entries-pc s.batch (record s { pc = stopped }) in
      inl (not_seen, rw (not_seen, step_drain) (last.0), rw (not_seen, step_drain) (last.1))
  | inr ((d, q), seen) ↦
      let next : Loop = record s { queue = q; batch = s.batch ++ d ∷ [] } in
      let k = flush_entries-pc next.batch next in
      let both : ((step_drain s).pc ≡ draining) × ((step_drain s).queue ≡ q) =
        rw (seen, step_drain)
          (elim (Bool-cases (leb max_batch_size (length next.batch))) [
            | inl due ↦ rw due (k.0 ∙ e, k.1)
            | inr more ↦ rw more (e, refl)
          ]) in
      inr (d, q, seen, both.0, both.1)
]

phase_ne : {p : Phase} → p ≡ idle → p ≡ committed → ⊥
phase_ne a b = cc

-- An entry that can be taken is one of the reserved slots; taking it moves `read_idx` on by one.
taken_bounds :
    {per_tile : Bool} {w : World} (s : Loop) (d : Descriptor) (q : DescriptorQueue)
    → Joint per_tile w s
    → take_entry s.queue ≡ some (d, q)
    → (s.queue.read_idx < s.queue.write_idx)
      × (q.read_idx ≡ s.queue.read_idx + 1)
      × (q.write_idx ≡ s.queue.write_idx)
unfolding taken_ring
taken_bounds {w = w} s d q j seen =
    let f = Joint-Follows j in
    let v = Reach-Inv f.reach in
    let seen' : take_entry w.ring ≡ some (d, q) = ap take_entry (sym f.ring) ∙ seen in
    let ready = ((takes_committed f.reach).0 d q seen').0 in
    let r = ap (λ (x : DescriptorQueue). x.read_idx) f.ring in
    let k = ap (λ (x : DescriptorQueue). x.write_idx) f.ring in
    let q' = (take_entry-some s.queue d q seen).2 in
    let low : w.ring.read_idx < w.ring.write_idx = elim (dec_lt w.ring.read_idx w.ring.write_idx) [
      | yes lt ↦ lt
      | no ge ↦
          let free = v.unreserved w.ring.read_idx (omega (arith, ge)) in
          absurd (phase_ne free ready)
    ] in
    (
      omega (arith, low, r, k),
      ap (λ (x : DescriptorQueue). x.read_idx) q' ∙ omega (arith, low, r, v.bounded),
      ap (λ (x : DescriptorQueue). x.write_idx) q',
    )

-- With as many steps as slots were reserved and not read, and one more, the drain ends.
record Ended (per_tile : Bool) (content : ℕ → Descriptor) (t : Loop) : Type 0 where
  world : World
  joint : Joint per_tile world t
  same : world.content ≡ content
  halted : t.pc ≡ stopped
  nothing_left : take_entry t.queue ≡ none

poll_step-draining :
    (per_tile : Bool) (s : Loop) → s.pc ≡ draining → poll_step per_tile false s ≡ step_drain s
unfolding poll_step
poll_step-draining per_tile s e = ap (λ pc. dispatch per_tile false pc s) e

steps-Ended :
    {per_tile : Bool} (n : ℕ) (w : World) (s : Loop)
    → Joint per_tile w s
    → s.pc ≡ draining
    → s.queue.write_idx - s.queue.read_idx < n
    → Ended per_tile w.content (steps per_tile n s)
unfolding steps
steps-Ended zero w s j e h = absurd (omega arith)
steps-Ended {per_tile} (suc n) w s j e h =
    let t = poll_step per_tile false s in
    let at = poll_step-draining per_tile s e in
    let j' : Joint per_tile (polled w t) t = poll false j in
    elim (drain_step s e) [
      | inl (none_left, over, q) ↦
          let halted : t.pc ≡ stopped = ap (λ (x : Loop). x.pc) at ∙ over in
          let queue : t.queue ≡ s.queue = ap (λ (x : Loop). x.queue) at ∙ q in
          subst (Ended per_tile w.content) (sym (steps-stopped per_tile n t halted)) (record {
            world = polled w t;
            joint = j';
            same = refl;
            halted = halted;
            nothing_left = ap take_entry queue ∙ none_left;
          })
      | inr (d, q, seen, on, q') ↦
          let b = taken_bounds s d q j seen in
          let queue : t.queue ≡ q = ap (λ (x : Loop). x.queue) at ∙ q' in
          let r = ap (λ (x : DescriptorQueue). x.read_idx) queue in
          let k = ap (λ (x : DescriptorQueue). x.write_idx) queue in
          steps-Ended n (polled w t) t j' (ap (λ (x : Loop). x.pc) at ∙ on)
            (omega (arith, b, r, k, h))
    ]

-- Once the producers are still, the drain of a reachable state ends: with one step for each slot that
-- was reserved and not read, and one more, the thread has stopped at the first place without a committed
-- entry, and the calls of flush_batch were given all contents of the slots before it, in slot order.
pub drain_ends :
    {per_tile : Bool} {w : World} {s : Loop}
    → Joint per_tile w s
    → s.pc ≡ draining
    → let t = steps per_tile (s.queue.write_idx - s.queue.read_idx + 1) s in
      (t.pc ≡ stopped)
      × (take_entry t.queue ≡ none)
      × (map payload (entries_of t.flushed) ≡ log w.content t.queue.read_idx)
drain_ends {per_tile} {w} {s} j e =
    let t = steps per_tile (s.queue.write_idx - s.queue.read_idx + 1) s in
    let d = steps-Ended (s.queue.write_idx - s.queue.read_idx + 1) w s j e (omega arith) in
    let b = Joint-Bounded d.joint in
    let empty : t.batch ≡ [] = subst (λ pc. Fits pc t) d.halted b.fits in
    let all = (handed_over d.joint).0 in
    let flushed : handled t ≡ entries_of t.flushed =
      ap (◌++◌ (entries_of t.flushed)) empty ∙ append-nil (entries_of t.flushed) in
    (
      d.halted,
      d.nothing_left,
      sym (ap (map payload) flushed) ∙ all ∙ ap (λ c. log c t.queue.read_idx) d.same,
    )

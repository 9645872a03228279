-- ===== src/SgBlock/Order.antt =====
-- The compute warp computes the lists that were signalled, each once and in order.
use gfd.Base.{false, ◌≡◌, refl, inl, inr, ◌⊎◌, arith, subst}
use gfd.SgBlock.{
  TransferAt, polling, publishing, resetting_ready, resetting_done, waiting_for_copies,
  waiting_for_compute, left, ComputeAt, loading_ready, loading_terminated, checking, computing,
  marking_done, clearing_ready, ended, Block, Turn, transfer_turn, compute_turn, block_step,
  block_start,
}
use gfd.SgBlock.Phases.{
  Settled, Pending, Between, Waits, Over, InPhase, Inv, compute_step-Inv, transfer_step-Inv,
}

-- The turns of a block in any order.
pub data Reach : Block → Type 0 where
  at_start : Reach block_start
  next : {b : Block} (turn : Turn) → Reach b → Reach (block_step turn b)

Reach-Inv : {b : Block} → Reach b → Inv b
unfolding block_start block_step InPhase Between
Reach-Inv at_start = ((refl, refl), refl)
Reach-Inv (next (transfer_turn i) r) = transfer_step-Inv i _ (Reach-Inv r)
Reach-Inv (next compute_turn r) = compute_step-Inv _ (Reach-Inv r)

-- All lists that were signalled are computed, or all but the last one, which is in the shared state.
abbrev pub UpToOne : Block → Type 0
UpToOne b = Settled b ⊎ Pending b

Between-Settled : (c : ComputeAt) (b : Block) → Between c b → Settled b
unfolding Between
Between-Settled loading_ready b h = h.0
Between-Settled loading_terminated b h = h.0
Between-Settled checking b h = absurd h
Between-Settled computing b h = absurd h
Between-Settled marking_done b h = absurd h
Between-Settled clearing_ready b h = h
Between-Settled ended b h = absurd h

Waits-UpToOne : (c : ComputeAt) (b : Block) → Waits c b → UpToOne b
unfolding Waits
Waits-UpToOne loading_ready b (inl w) = inr w
Waits-UpToOne loading_ready b (inr (e, d, r)) = inl e
Waits-UpToOne loading_terminated b (inl w) = inr w
Waits-UpToOne loading_terminated b (inr (e, d, r)) = inl e
Waits-UpToOne checking b w = inr w
Waits-UpToOne computing b w = inr w
Waits-UpToOne marking_done b (e, d) = inl e
Waits-UpToOne clearing_ready b (inl w) = inr w
Waits-UpToOne clearing_ready b (inr (e, d)) = inl e
Waits-UpToOne ended b h = absurd h

Over-Settled : (c : ComputeAt) (b : Block) → Over c b → Settled b
unfolding Over
Over-Settled loading_ready b h = h.0
Over-Settled loading_terminated b h = h.0
Over-Settled checking b h = h
Over-Settled computing b h = absurd h
Over-Settled marking_done b h = absurd h
Over-Settled clearing_ready b h = h
Over-Settled ended b h = h

InPhase-UpToOne : (t : TransferAt) (b : Block) → InPhase t b → UpToOne b
unfolding InPhase
InPhase-UpToOne polling b h = inl (Between-Settled b.compute b h.0)
InPhase-UpToOne (publishing list) b h = inl (Between-Settled b.compute b h.0)
InPhase-UpToOne resetting_ready b h = inl (Between-Settled b.compute b h.0)
InPhase-UpToOne resetting_done b h = inl (Between-Settled b.compute b h.0)
InPhase-UpToOne waiting_for_copies b h = inl (Between-Settled b.compute b h.0)
InPhase-UpToOne waiting_for_compute b h = Waits-UpToOne b.compute b h.0
InPhase-UpToOne left b h = inl (Over-Settled b.compute b h.0)

-- When the transfer warp has left, nothing is left over.
left-Settled : (b : Block) → Inv b → b.transfer ≡ left → Settled b
unfolding InPhase
left-Settled b h at = Over-Settled b.compute b (subst (λ t. InPhase t b) at h).0

-- In each state that the turns of the two warps lead to, the lists computed are the lists signalled,
-- each once and in order, but for at most the last one, which is then the one in the shared state;
-- and they are all of them once the transfer warp has left.
pub computed_in_order :
    {b : Block} → Reach b → UpToOne b × (b.transfer ≡ left → b.signalled ≡ b.computed)
computed_in_order {b} r = (InPhase-UpToOne b.transfer b (Reach-Inv r), left-Settled b (Reach-Inv r))

-- `terminated` is down as long as the transfer warp waits for the compute warp.
pub not_terminated :
    {b : Block} → Reach b → b.transfer ≡ waiting_for_compute → b.shared.terminated ≡ false
unfolding InPhase
not_terminated {b} r at = (subst (λ t. InPhase t b) at (Reach-Inv r)).1

Waits-Pending :
    (c : ComputeAt) (b : Block)
    → c ≡ clearing_ready
    → Waits c b
    → b.shared.compute_done ≡ false
    → Pending b
unfolding Waits
Waits-Pending c b at h d = elim (subst (λ c. Waits c b) at h) [
  | inl w ↦ w
  | inr (e, up) ↦ absurd (ground (arith, d, up))
]

-- A compute warp that lowers `list_ready` under a new signal has not computed the list of it.
pub late-Pending :
    {b : Block}
    → Reach b
    → b.transfer ≡ waiting_for_compute
    → b.compute ≡ clearing_ready
    → b.shared.compute_done ≡ false
    → Pending b
unfolding InPhase
late-Pending {b} r at_t at_c d =
    Waits-Pending b.compute b at_c (subst (λ t. InPhase t b) at_t (Reach-Inv r)).0 d

-- ===== src/SgBlock/LostSignal.antt =====
-- A compute warp that lowers `list_ready` late lowers the signal of the next list.
use gfd.Base.{false, List, [], ◌∷◌, ◌++◌, ◌≡◌, refl, sym, ◌∙◌, inl, inr, ◌⊎◌, subst}
use gfd.SgBlock.{
  SgListView, waiting_for_compute, ComputeAt, loading_ready, loading_terminated, clearing_ready,
  Block, transfer_at, compute_at, transfer_step, compute_step, Turn, transfer_turn, compute_turn,
  block_step, block_steps,
}
use gfd.SgBlock.Order.{Reach, not_terminated, late-Pending}

-- Both warps wait, each for the other.
module _ (view : SgListView) (signalled computed : List SgListView) where
  abbrev stuck : ComputeAt → Block
  stuck c = record {
    transfer = waiting_for_compute;
    compute = c;
    shared = record { view = view; list_ready = false; compute_done = false; terminated = false };
    signalled = signalled;
    computed = computed;
  }

  abbrev IsStuck : Block → Type 0
  IsStuck b = (b ≡ stuck loading_ready) ⊎ (b ≡ stuck loading_terminated)

  block_step-IsStuck : (turn : Turn) (b : Block) → IsStuck b → IsStuck (block_step turn b)
  unfolding block_step transfer_step compute_step transfer_at compute_at
  block_step-IsStuck (transfer_turn i) b (inl e) =
      subst (λ b. IsStuck (transfer_step i b)) (sym e) (inl refl)
  block_step-IsStuck (transfer_turn i) b (inr e) =
      subst (λ b. IsStuck (transfer_step i b)) (sym e) (inr refl)
  block_step-IsStuck compute_turn b (inl e) =
      subst (λ b. IsStuck (compute_step b)) (sym e) (inr refl)
  block_step-IsStuck compute_turn b (inr e) =
      subst (λ b. IsStuck (compute_step b)) (sym e) (inl refl)

  block_steps-IsStuck : (turns : List Turn) (b : Block) → IsStuck b → IsStuck (block_steps turns b)
  unfolding block_steps
  block_steps-IsStuck [] b h = h
  block_steps-IsStuck (turn ∷ turns) b h =
      block_steps-IsStuck turns (block_step turn b) (block_step-IsStuck turn b h)

  -- What the two warps have done when they are stuck.
  IsStuck-lists :
      (b : Block)
      → IsStuck b
      → (b.transfer ≡ waiting_for_compute) × (b.signalled ≡ signalled) × (b.computed ≡ computed)
  IsStuck-lists b (inl e) = rw e (refl, refl, refl)
  IsStuck-lists b (inr e) = rw e (refl, refl, refl)

cleared-stuck :
    (b : Block)
    → b.transfer ≡ waiting_for_compute
    → b.compute ≡ clearing_ready
    → b.shared.compute_done ≡ false
    → b.shared.terminated ≡ false
    → compute_step b ≡ stuck b.shared.view b.signalled b.computed loading_ready
unfolding compute_step compute_at
cleared-stuck b t c d z = rw (c, t, d, z) refl

-- In a state that the turns lead to: if the transfer warp has signalled a list and waits for the
-- compute warp, while that is only about to lower `list_ready` for the list before, then after this
-- store, whatever the turns are, the list is never computed and the transfer warp waits on.
pub late_store_blocks :
    {b : Block} (turns : List Turn)
    → Reach b
    → b.transfer ≡ waiting_for_compute
    → b.compute ≡ clearing_ready
    → b.shared.compute_done ≡ false
    → let later = block_steps turns (compute_step b) in
      (later.transfer ≡ waiting_for_compute)
      × (later.signalled ≡ b.computed ++ b.shared.view ∷ [])
      × (later.computed ≡ b.computed)
late_store_blocks {b} turns r t c d =
    let still =
      block_steps-IsStuck b.shared.view b.signalled b.computed turns (compute_step b)
        (inl (cleared-stuck b t c d (not_terminated r t))) in
    let (waits, sent, done) =
      IsStuck-lists b.shared.view b.signalled b.computed (block_steps turns (compute_step b))
        still in
    (waits, sent ∙ (late-Pending r t c d).0, done)

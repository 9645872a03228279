-- ===== src/SgBlock/Phases.antt =====
-- What holds of the lists and the flags, wherever the two warps are.
use gfd.Base.{
  true, false, List, [], ◌∷◌, ◌++◌, ◌≡◌, refl, sym, ◌∙◌, inl, inr, ◌⊎◌, Bool-cases, Option-cases,
  arith, ap, subst, if-eq_left, if-eq_right,
}
use gfd.SgBlock.{
  SgListView, SgWarpSpecState, TransferAt, polling, publishing, resetting_ready, resetting_done,
  waiting_for_copies, waiting_for_compute, left, ComputeAt, loading_ready, loading_terminated,
  checking, computing, marking_done, clearing_ready, ended, Block, TransferInput, transfer_at,
  compute_at, transfer_step, compute_step,
}

abbrev pub Settled : Block → Type 0
Settled b = b.signalled ≡ b.computed

-- The last list that was signalled is in the shared state and not computed.
abbrev pub Pending : Block → Type 0
Pending b = (b.signalled ≡ b.computed ++ b.shared.view ∷ []) × (b.shared.compute_done ≡ false)

-- Between the transfer warp's signals.
unfoldable pub Between : ComputeAt → Block → Type 0
Between loading_ready b = Settled b × (b.shared.list_ready ≡ false)
Between loading_terminated b = Settled b × (b.shared.list_ready ≡ false)
Between clearing_ready b = Settled b
Between checking b = ⊥
Between computing b = ⊥
Between marking_done b = ⊥
Between ended b = ⊥

-- While the transfer warp waits for the compute warp.
unfoldable pub Waits : ComputeAt → Block → Type 0
Waits loading_ready b =
    Pending b ⊎ (Settled b × (b.shared.compute_done ≡ true) × (b.shared.list_ready ≡ false))
Waits loading_terminated b =
    Pending b ⊎ (Settled b × (b.shared.compute_done ≡ true) × (b.shared.list_ready ≡ false))
Waits checking b = Pending b
Waits computing b = Pending b
Waits marking_done b = Settled b × (b.shared.compute_done ≡ false)
Waits clearing_ready b = Pending b ⊎ (Settled b × (b.shared.compute_done ≡ true))
Waits ended b = ⊥

-- After the transfer warp has left.
unfoldable pub Over : ComputeAt → Block → Type 0
Over loading_ready b = Settled b × (b.shared.list_ready ≡ false)
Over loading_terminated b = Settled b × (b.shared.list_ready ≡ false)
Over checking b = Settled b
Over computing b = ⊥
Over marking_done b = ⊥
Over clearing_ready b = Settled b
Over ended b = Settled b

unfoldable pub InPhase : TransferAt → Block → Type 0
InPhase polling b = Between b.compute b × (b.shared.terminated ≡ false)
InPhase (publishing list) b = Between b.compute b × (b.shared.terminated ≡ false)
InPhase resetting_ready b = Between b.compute b × (b.shared.terminated ≡ false)
InPhase resetting_done b = Between b.compute b × (b.shared.terminated ≡ false)
InPhase waiting_for_copies b =
    Between b.compute b × (b.shared.terminated ≡ false) × (b.shared.compute_done ≡ false)
InPhase waiting_for_compute b = Waits b.compute b × (b.shared.terminated ≡ false)
InPhase left b = Over b.compute b × (b.shared.terminated ≡ true)

abbrev pub Inv : Block → Type 0
Inv b = InPhase b.transfer b

module _ (t : TransferAt) (s : SgWarpSpecState) (signalled computed : List SgListView) where
  abbrev at_compute : ComputeAt → Block
  at_compute c = record {
    transfer = t;
    compute = c;
    shared = s;
    signalled = signalled;
    computed = computed;
  }

  compute-Between :
      (c : ComputeAt)
      → Between c (at_compute c)
      → s.terminated ≡ false
      → Between (compute_at c (at_compute c)).compute (compute_at c (at_compute c))
  unfolding Between compute_at
  compute-Between loading_ready (e, r) z = rw r (e, refl)
  compute-Between loading_terminated (e, r) z = rw z (e, r)
  compute-Between clearing_ready e z = (e, refl)
  compute-Between checking h z = absurd h
  compute-Between computing h z = absurd h
  compute-Between marking_done h z = absurd h
  compute-Between ended h z = absurd h

  compute-Waits :
      (c : ComputeAt)
      → Waits c (at_compute c)
      → s.terminated ≡ false
      → Waits (compute_at c (at_compute c)).compute (compute_at c (at_compute c))
  unfolding Waits compute_at
  compute-Waits loading_ready (inl w) z = elim (Bool-cases s.list_ready) [
    | inl up ↦ rw up w
    | inr down ↦ rw down (inl w)
  ]
  compute-Waits loading_ready (inr (e, d, r)) z = rw r (inr (e, d, refl))
  compute-Waits loading_terminated w z = rw z w
  compute-Waits clearing_ready (inl w) z = inl w
  compute-Waits clearing_ready (inr (e, d)) z = inr (e, d, refl)
  compute-Waits checking w z = rw z w
  compute-Waits computing (e, d) z = (e, d)
  compute-Waits marking_done (e, d) z = inr (e, refl)
  compute-Waits ended h z = absurd h

  compute-Over :
      (c : ComputeAt)
      → Over c (at_compute c)
      → s.terminated ≡ true
      → Over (compute_at c (at_compute c)).compute (compute_at c (at_compute c))
  unfolding Over compute_at
  compute-Over loading_ready (e, r) z = rw r (e, refl)
  compute-Over loading_terminated (e, r) z = rw z e
  compute-Over clearing_ready e z = (e, refl)
  compute-Over checking e z = rw z e
  compute-Over computing h z = absurd h
  compute-Over marking_done h z = absurd h
  compute-Over ended e z = e

  -- The transfer warp sees `compute_done`.
  Waits-Between :
      (c : ComputeAt) → Waits c (at_compute c) → s.compute_done ≡ true → Between c (at_compute c)
  unfolding Waits Between
  Waits-Between loading_ready (inl (e, d)) up = absurd (ground (arith, d, up))
  Waits-Between loading_ready (inr (e, d, r)) up = (e, r)
  Waits-Between loading_terminated (inl (e, d)) up = absurd (ground (arith, d, up))
  Waits-Between loading_terminated (inr (e, d, r)) up = (e, r)
  Waits-Between clearing_ready (inl (e, d)) up = absurd (ground (arith, d, up))
  Waits-Between clearing_ready (inr (e, d)) up = e
  Waits-Between checking (e, d) up = absurd (ground (arith, d, up))
  Waits-Between computing (e, d) up = absurd (ground (arith, d, up))
  Waits-Between marking_done (e, d) up = absurd (ground (arith, d, up))
  Waits-Between ended h up = absurd h

  -- The transfer warp leaves.
  Between-Over :
      (c : ComputeAt)
      → Between c (at_compute c)
      → Over c (record (at_compute c) { transfer = left; shared = record s { terminated = true } })
  unfolding Between Over
  Between-Over loading_ready h = h
  Between-Over loading_terminated h = h
  Between-Over clearing_ready h = h
  Between-Over checking h = absurd h
  Between-Over computing h = absurd h
  Between-Over marking_done h = absurd h
  Between-Over ended h = absurd h

  -- The transfer warp writes to the shared state before the signal.
  Between-written :
      (c : ComputeAt) (t' : TransferAt) (s' : SgWarpSpecState)
      → Between c (at_compute c)
      → (s.list_ready ≡ false → s'.list_ready ≡ false)
      → Between c (record (at_compute c) { transfer = t'; shared = s' })
  unfolding Between
  Between-written loading_ready t' s' (e, r) keep = (e, keep r)
  Between-written loading_terminated t' s' (e, r) keep = (e, keep r)
  Between-written clearing_ready t' s' h keep = h
  Between-written checking t' s' h keep = absurd h
  Between-written computing t' s' h keep = absurd h
  Between-written marking_done t' s' h keep = absurd h
  Between-written ended t' s' h keep = absurd h

  -- The transfer warp signals the list.
  Between-Waits :
      (c : ComputeAt)
      → Between c (at_compute c)
      → s.compute_done ≡ false
      → Waits c (record (at_compute c) {
        transfer = waiting_for_compute;
        shared = record s { list_ready = true };
        signalled = signalled ++ s.view ∷ [];
      })
  unfolding Between Waits
  Between-Waits loading_ready (e, r) d = inl (ap (λ l. l ++ s.view ∷ []) e, d)
  Between-Waits loading_terminated (e, r) d = inl (ap (λ l. l ++ s.view ∷ []) e, d)
  Between-Waits clearing_ready e d = inl (ap (λ l. l ++ s.view ∷ []) e, d)
  Between-Waits checking h d = absurd h
  Between-Waits computing h d = absurd h
  Between-Waits marking_done h d = absurd h
  Between-Waits ended h d = absurd h

-- A compute step leaves the transfer warp where it is, and `terminated` and, before it marks a list as
-- done, `compute_done` as they were.
compute_at-kept :
    (c : ComputeAt) (b : Block)
    → ((compute_at c b).transfer ≡ b.transfer)
      × ((compute_at c b).shared.terminated ≡ b.shared.terminated)
unfolding compute_at
compute_at-kept loading_ready b = (refl, refl)
compute_at-kept loading_terminated b = (refl, refl)
compute_at-kept checking b = (refl, refl)
compute_at-kept computing b = (refl, refl)
compute_at-kept marking_done b = (refl, refl)
compute_at-kept clearing_ready b = (refl, refl)
compute_at-kept ended b = (refl, refl)

unmarked :
    (c : ComputeAt) (t : TransferAt) (s : SgWarpSpecState) (p q : List SgListView)
    → Between c (at_compute t s p q c)
    → s.compute_done ≡ false
    → (compute_at c (at_compute t s p q c)).shared.compute_done ≡ false
unfolding compute_at Between
unmarked loading_ready t s p q h d = d
unmarked loading_terminated t s p q h d = d
unmarked checking t s p q h d = d
unmarked computing t s p q h d = d
unmarked marking_done t s p q h d = absurd h
unmarked clearing_ready t s p q h d = d
unmarked ended t s p q h d = d

in_phase :
    (u t : TransferAt) (c : ComputeAt) (s : SgWarpSpecState) (p q : List SgListView)
    → InPhase u (at_compute t s p q c)
    → InPhase u (compute_at c (at_compute t s p q c))
unfolding InPhase
in_phase polling t c s p q (h, z) =
    (compute-Between t s p q c h z, (compute_at-kept c (at_compute t s p q c)).1 ∙ z)
in_phase (publishing list) t c s p q (h, z) =
    (compute-Between t s p q c h z, (compute_at-kept c (at_compute t s p q c)).1 ∙ z)
in_phase resetting_ready t c s p q (h, z) =
    (compute-Between t s p q c h z, (compute_at-kept c (at_compute t s p q c)).1 ∙ z)
in_phase resetting_done t c s p q (h, z) =
    (compute-Between t s p q c h z, (compute_at-kept c (at_compute t s p q c)).1 ∙ z)
in_phase waiting_for_copies t c s p q (h, z, d) = (
  compute-Between t s p q c h z,
  (compute_at-kept c (at_compute t s p q c)).1 ∙ z,
  unmarked c t s p q h d,
)
in_phase waiting_for_compute t c s p q (h, z) =
    (compute-Waits t s p q c h z, (compute_at-kept c (at_compute t s p q c)).1 ∙ z)
in_phase left t c s p q (h, z) =
    (compute-Over t s p q c h z, (compute_at-kept c (at_compute t s p q c)).1 ∙ z)

pub compute_step-Inv : (b : Block) → Inv b → Inv (compute_step b)
unfolding compute_step
compute_step-Inv b h =
    subst (λ u. InPhase u (compute_step b)) (sym (compute_at-kept b.compute b).0)
      (in_phase b.transfer b.transfer b.compute b.shared b.signalled b.computed h)

pub transfer_step-Inv : (i : TransferInput) (b : Block) → Inv b → Inv (transfer_step i b)
unfolding InPhase transfer_step transfer_at
transfer_step-Inv i b h = by_phase b.transfer b.compute b.shared b.signalled b.computed h
  where
    by_phase :
        (t : TransferAt) (c : ComputeAt) (s : SgWarpSpecState)
        (signalled computed : List SgListView)
        → InPhase t (at_compute t s signalled computed c)
        → Inv (transfer_at t i (at_compute t s signalled computed c))
    by_phase polling c s p q (h, z) = elim (Option-cases i.committed) [
      | inl ends ↦ rw ends (Between-Over polling s p q c h, refl)
      | inr (list, found) ↦
          rw found (Between-written polling s p q c (publishing list) s h (λ r. r), z)
    ]
    by_phase (publishing list) c s p q (h, z) = (
      Between-written (publishing list) s p q c resetting_ready (record s { view = list }) h
          (λ r. r),
      z,
    )
    by_phase resetting_ready c s p q (h, z) = (
      Between-written resetting_ready s p q c resetting_done (record s { list_ready = false }) h
          (λ r. refl),
      z,
    )
    by_phase resetting_done c s p q (h, z) = (
      Between-written resetting_done s p q c waiting_for_copies (record s { compute_done = false })
          h (λ r. r),
      z,
      refl,
    )
    by_phase waiting_for_copies c s p q (h, z, d) = elim (Bool-cases i.list_done) [
      | inl up ↦ rw up (Between-Waits waiting_for_copies s p q c h d, z)
      | inr down ↦ rw down (h, z, d)
    ]
    by_phase waiting_for_compute c s p q (h, z) = elim (Bool-cases s.compute_done) [
      | inl up ↦ subst Inv (sym (if-eq_left _ _ up)) (
        Between-written waiting_for_compute s p q c polling s
            (Waits-Between waiting_for_compute s p q c h up) (λ r. r),
        z,
      )
      | inr down ↦ subst Inv (sym (if-eq_right _ _ down)) (h, z)
    ]
    by_phase left c s p q h = h

-- ===== src/DirectSubmit/Copies.antt =====
-- Whichever way a direct submission takes, its entries have been copied when it returns.
use gfd.Base.{
  ◌<◌, ◌≡◌, refl, sym, ap, subst, ◌∙◌, Bool, true, false, arith, ◌==◌, ◌||◌, not, inl, inr,
  if-eq_right, Bool-cases, List, length,
}
use gfd.Driver.{Driver, Succeeds, SgEntry, ctx_push}
use gfd.Driver.Clock.{copies}
use gfd.Memory.{Memory, copied_all}
use gfd.Memory.Concurrent.{
  Outcome, SameBytes, SameBytes-Outcome, copied_all-Outcome, Carries-SameBytes,
}
use gfd.CopyEngine.{Manager, success, ignore, pin_context, unpin_context, wait_completion}
use gfd.CopyEngine.Runs.{called, check-eq}
use gfd.CopyEngine.Sent.{onto}
use gfd.CopyEngine.Submit.{IsValid}
use gfd.CopyEngine.Wait.{Drained, wait_completion_drains}
use gfd.Coalesce.Sound.{AllInRange}
use gfd.DirectSubmit.{
  DirectSubmitter, with_ce, submit_entries, finish_direct, after_pin, submit_direct,
}
use gfd.DirectSubmit.Pipeline.{Buffers, SourcesFree}
use gfd.DirectSubmit.Ways.{Gone, entries-Gone}

-- Pinning the context changes nothing about copies.
record Pinned (drv : Driver) (m : Manager) : Type 0 where
  ce : Manager
  run : pin_context drv m ≡ (success tt, ce)
  valid : IsValid ce
  ready : ce.initialized ≡ true
  copied : copies ce.trace ≡ copies m.trace

pin-Pinned :
    (drv : Driver) (ok : Succeeds drv) (m : Manager)
    → IsValid m
    → m.initialized ≡ true
    → Pinned drv m
unfolding pin_context
pin-Pinned drv ok m v r = elim (Bool-cases m.context_pinned) [
  | inl old ↦ record { ce = m; run = ground (arith, old); valid = v; ready = r; copied = refl }
  | inr new ↦
      let e = check-eq drv ok ctx_push m in
      record {
        ce = record (called ctx_push m) { context_pinned = true };
        run = ground (arith, new, e);
        valid = record {
          some_channel = v.some_channel;
          few_channels = v.few_channels;
          next_in = v.next_in;
          mask_small = v.mask_small;
          covered = v.covered;
        };
        ready = r;
        copied = refl;
      }
]

unpin-kept :
    (drv : Driver) (m : Manager)
    → Drained m
    → Drained (unpin_context drv m).1 × (copies (unpin_context drv m).1.trace ≡ copies m.trace)
unfolding unpin_context ignore
unpin-kept drv m d = elim (Bool-cases (not m.context_pinned)) [
  | inl idle ↦ rw idle (d, refl)
  | inr pinned ↦ rw pinned (d, refl)
]

-- The entries have been copied: no copy is on its way, and the memory that the copies may have left, in
-- any order of their bytes, is that of copying the entries one by one, and no other.
pub record Landed (entries : List SgEntry) (p p' : DirectSubmitter) : Type 0 where
  pub sent : List SgEntry
  pub copied : copies p'.direct_ce.trace ≡ onto sent (copies p.direct_ce.trace)
  pub runs :
      (before : Memory) → Outcome p'.base.host sent before (copied_all p.base.host entries before)
  pub memory :
      (before after : Memory)
      → Outcome p'.base.host sent before after
      → after ≡ copied_all p.base.host entries before
  pub drained : Drained p'.direct_ce

module _ (drv : Driver) (ok : Succeeds drv) where
  finish-Landed :
      (entries : List SgEntry) (p q p' : DirectSubmitter)
      → copies q.direct_ce.trace ≡ copies p.direct_ce.trace
      → q.base.host ≡ p.base.host
      → SameBytes p.base.host entries
      → Gone entries q p'
      → Landed entries p (finish_direct drv entries p')
  unfolding finish_direct
  finish-Landed entries p q p' same host agree g =
      let w = wait_completion_drains drv ok p'.direct_ce g.sends.valid g.sends.ready in
      let at : (wait_completion drv p'.direct_ce).1 ≡ w.state = ap (λ x. x.1) w.run in
      let u = unpin-kept drv w.state w.post.0 in
      record {
        sent = g.sent;
        copied =
            ap (λ m. copies (unpin_context drv m).1.trace) at
            ∙ u.1
            ∙ w.post.3
            ∙ g.sends.copied
            ∙ ap (onto g.sent) same;
        runs = λ before.
            subst (Outcome p'.base.host g.sent before)
              (g.memory before ∙ ap (λ m. copied_all m entries before) host)
              (copied_all-Outcome p'.base.host g.sent before);
        memory = λ before after o.
            SameBytes-Outcome p'.base.host g.sent before after
              (Carries-SameBytes p'.base.host g.sent q.base.host entries g.carries
                (subst (λ m. SameBytes m entries) (sym host) agree))
              o
            ∙ g.memory before
            ∙ ap (λ m. copied_all m entries before) host;
        drained = subst (λ m. Drained (unpin_context drv m).1) (sym at) u.0;
      }

  -- Against a driver that reports no error, a direct submission of some entries to a valid, initialised
  -- manager succeeds, and returns when no copy is on its way; whatever its copies may leave, in any order
  -- of their bytes and read out of the staging buffers as they are then, is the memory that copying the
  -- entries one by one leaves, on each of its ways. No range wraps around, entries that write to one
  -- address bring the same byte there, the staging buffers do not overlap, and no entry reads one.
  pub submit_direct-Landed :
      (entries : List SgEntry) (p : DirectSubmitter)
      → IsValid p.direct_ce
      → p.direct_ce.initialized ≡ true
      → Buffers p.base
      → 0 < length entries
      → AllInRange entries
      → SameBytes p.base.host entries
      → SourcesFree p.base entries
      → ((submit_direct drv entries p).1 ≡ true) × Landed entries p (submit_direct drv entries p).0
  unfolding submit_direct
  submit_direct-Landed entries p v r buffers more range agree free =
      let pin = pin-Pinned drv ok p.direct_ce v r in
      let go : (not p.direct_ce.initialized || (length entries == 0)) ≡ false =
        ground (arith, r, more) in
      let q = with_ce pin.ce p in
      let g = entries-Gone drv ok q pin.valid pin.ready buffers entries range free in
      let landed =
        finish-Landed entries p q (submit_entries drv entries q) pin.copied refl agree g in
      let at : submit_direct drv entries p
          ≡ (finish_direct drv entries (submit_entries drv entries q), true) =
        if-eq_right _ _ go ∙ ap (λ x. after_pin drv entries x p) pin.run in
      (
        ap (λ x. x.1) at,
        subst (λ (x : DirectSubmitter × Bool). Landed entries p x.0) (sym at) landed,
      )

-- ===== src/ProcessBatch/Reuse.antt =====
-- A staging buffer is not filled again before the copy out of it is over.
use gfd.Base.{◌+◌, ◌≤◌, ◌≡◌, false, ◌∷◌}
use gfd.Driver.{Driver, SgEntry}
use gfd.Driver.Clock.{Clock, clock, copies}
use gfd.ProcessBatch.{BatchPoller}

-- The copy `e` is the newest one, it is over, and the current buffer of `p` is free again.
abbrev pub Waited : SgEntry → BatchPoller → BatchPoller → Type 0
Waited e p w =
    let k = clock w.ce.trace in
    let ch = p.ce.next_channel in
    (w.staging_event_pending p.staging_cur ≡ false)
    × (copies w.ce.trace ≡ e ∷ copies p.ce.trace)
    × (k.issued ch ≡ (clock p.ce.trace).issued ch + 1)
    × (k.issued ch ≤ k.finished ch)

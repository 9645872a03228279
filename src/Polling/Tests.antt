-- ===== src/Polling/Tests.antt =====
-- The polling loop beside a producer that has committed the first of two reserved slots.
use gfd.Base.{ℕ, ◌<◌, ◌≡◌, refl, true, false, none, arith, map, length, ◌∷◌, []}
use gfd.Ring.{take_entry, payload}
use gfd.Ring.Protocol.{committed, log, reserve, write, commit}
use gfd.Ring.Tests.{one_ready}
use gfd.Ring.Producers.{fill-IsFill}
use gfd.Device.{fill}
use gfd.Polling.{
  Loop, draining, stopped, poll_step, step_head, step_reading, after_read, read_entry, finish,
  flush,
}
use gfd.Polling.Order.{Joint, boot, produce, poll, begin, handled, entries_of, handed_over}
use gfd.Polling.Bounds.{Bounded, Joint-Bounded}
use gfd.Polling.Drain.{steps, drain_ends}

abbrev waiting : Loop
waiting = record begin { queue = one_ready.ring }

waiting-Joint : Joint false one_ready waiting
waiting-Joint =
    produce
      (produce (produce boot (reserve 2 (omega arith)) refl)
        (write 0 (fill 0 4096 8192 64 1 7) (fill-IsFill 0 4096 8192 64 1 7) refl (omega arith)
          (omega arith))
        refl)
      (commit 0 refl) refl

-- The entry is the last of its batch: two steps later it has been flushed.
flushed_at_once :
    map (λ f. length f.entries) (poll_step false true (poll_step false true waiting)).flushed
    ≡ 1 ∷ []
unfolding poll_step step_head step_reading after_read read_entry finish flush take_entry fill
flushed_at_once = refl

handed_over_example :
    (map payload (handled waiting) ≡ log one_ready.content waiting.queue.read_idx)
    × ((k : ℕ) → k < waiting.queue.read_idx → one_ready.phase k ≡ committed)
handed_over_example = handed_over waiting-Joint

Joint-Bounded_example : Bounded (poll_step false true waiting)
Joint-Bounded_example = Joint-Bounded (poll true waiting-Joint)

abbrev stopping : Loop
stopping = record waiting { pc = draining }

stopping-Joint : Joint false one_ready stopping
unfolding poll_step
stopping-Joint = poll false waiting-Joint

drain_ends_example :
    let t = steps false 3 stopping in
    (t.pc ≡ stopped)
    × (take_entry t.queue ≡ none)
    × (map payload (entries_of t.flushed) ≡ log one_ready.content t.queue.read_idx)
drain_ends_example = drain_ends stopping-Joint refl

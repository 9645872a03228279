-- ===== src/Ring/Tests.antt =====
-- A run of the ring: one slot reserved, written and committed.
use gfd.Base.{refl, arith}
use gfd.Ring.Protocol.{
  World, start, reserved, written, published, Reach, here, next, reserve, write, commit,
}
use gfd.Device.{fill}
use gfd.Ring.Producers.{fill-IsFill}

abbrev pub one_ready : World
one_ready = published (written (reserved start 2) 0 (fill 0 4096 8192 64 1 7)) 0

one_ready-Reach : Reach one_ready
one_ready-Reach =
    next
      (next (next here (reserve 2 (omega arith))) (
        write 0 (fill 0 4096 8192 64 1 7) (fill-IsFill 0 4096 8192 64 1 7) refl (omega arith)
          (omega arith)))
      (commit 0 refl)

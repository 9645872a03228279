-- ===== src/Memory.antt =====
-- The memory that a copy reads and the memory that it writes, byte by byte: what the entries of a
-- scatter-gather list do when they run one after the other.
pub mod Cover
pub mod Concurrent
use gfd.Base.{ℕ, ◌+◌, ◌-◌, ltb, leb, ◌&&◌, if◌then◌else◌, List, [], ◌∷◌}
use gfd.Driver.{SgEntry}

abbrev pub Memory : Type 0
Memory = ℕ → ℕ

unfoldable pub copied : Memory → SgEntry → Memory → Memory
copied host e device p =
    if leb e.dst p && ltb p (e.dst + e.size) then host (e.src + (p - e.dst)) else device p

unfoldable pub copied_all : Memory → List SgEntry → Memory → Memory
copied_all host [] device = device
copied_all host (e ∷ es) device = copied_all host es (copied host e device)

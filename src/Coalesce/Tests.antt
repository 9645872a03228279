-- ===== src/Coalesce/Tests.antt =====
-- Concrete lists of copies.
use gfd.Base.{ℕ, ◌+◌, ◌≡◌, refl, List, [], ◌∷◌, arith}
use gfd.Driver.{SgEntry}
use gfd.Memory.{Memory, copied_all}
use gfd.Coalesce.{coalesce, coalesce_after}
use gfd.Coalesce.Sound.{AllInRange, no_entry, and_entry, coalesce-copied}

abbrev piece : ℕ → SgEntry
piece n = record { dst = 100 + n; src = 200 + n; size = 4 }

abbrev pieces : List SgEntry
pieces = piece 0 ∷ piece 4 ∷ piece 12 ∷ []

merged : coalesce pieces ≡ record { dst = 100; src = 200; size = 8 } ∷ piece 12 ∷ []
unfolding coalesce coalesce_after
merged = refl

pieces-AllInRange : AllInRange pieces
pieces-AllInRange =
    and_entry (record { dst_ends = omega arith; src_ends = omega arith })
      (and_entry (record { dst_ends = omega arith; src_ends = omega arith })
        (and_entry (record { dst_ends = omega arith; src_ends = omega arith }) no_entry))

abbrev host : Memory
host p = p

abbrev device : Memory
device p = 0

coalesce-copied_example : copied_all host (coalesce pieces) device ≡ copied_all host pieces device
coalesce-copied_example = coalesce-copied host device pieces pieces-AllInRange

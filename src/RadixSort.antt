-- ===== src/RadixSort.antt =====
-- src/batch_processor.cpp, radix_sort_sg: four passes of a counting sort, on the lower 32 bits of the key.
-- For 64 entries or fewer the source calls std::sort, which is a parameter.
pub mod Sorted
pub mod Passes
pub mod Order
pub mod Entries
pub mod Tests
use gfd.Base.{ℕ, zero, suc, ◌*◌, ◌/◌, ◌%◌, ◌^◌, leb, if◌then◌else◌, Option, some, List, length}
use gfd.Driver.{SgEntry}
use gfd.Scatter.{offsets, count_buckets, scatter}
use gfd.Scatter.Segments.{segment}

abbrev pub radix_size : ℕ
radix_size = 256

module _ (key_fn : SgEntry → ℕ) where
  -- `(k >> shift) & RADIX_MASK`
  abbrev pub digit : ℕ → SgEntry → ℕ
  digit pass e = key_fn e / radix_size ^ pass % radix_size

  abbrev pub bucket_at : ℕ → SgEntry → Option ℕ
  bucket_at pass e = some (digit pass e)

  -- One pass: the entries as they stand in `dst`, whose places before the pass are `unset`.
  unfoldable pub radix_pass : (ℕ → SgEntry) → ℕ → List SgEntry → List SgEntry
  radix_pass unset pass src =
      let counts = count_buckets (bucket_at pass) src (λ b. 0) in
      segment (scatter (bucket_at pass) src (offsets counts) unset) 0 (length src)

  -- After an even number of passes the result stands in `arr` itself.
  unfoldable pub radix_sort_sg :
      ((SgEntry → ℕ) → List SgEntry → List SgEntry) → (ℕ → SgEntry) → List SgEntry → List SgEntry
  unfolding radix_pass
  radix_sort_sg std_sort unset arr =
      if leb (length arr) 64
      then std_sort key_fn arr
      else radix_pass unset 3 (radix_pass unset 2 (radix_pass unset 1 (radix_pass unset 0 arr)))

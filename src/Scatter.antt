-- ===== src/Scatter.antt =====
-- The counting scatter of src/batch_processor.cpp, which radix_sort_sg, process_batch_tiled and
-- process_batch_sg write out: count the items of each bucket, sum the counts up to offsets, and store each
-- item at its bucket's next free place.
pub mod Segments
pub mod Groups
use gfd.Base.{
  ℕ, zero, suc, ◌+◌, Bool, false, ◌==◌, if◌then◌else◌, Option, none, some, update, List, [], ◌∷◌,
}

-- `offsets[b] = offsets[b - 1] + counts[b - 1]`
unfoldable pub offsets : (ℕ → ℕ) → ℕ → ℕ
offsets counts zero = 0
offsets counts (suc b) = offsets counts b + counts b

module _ {X : Type 0} (bucket : X → Option ℕ) where
  unfoldable pub count_buckets : List X → (ℕ → ℕ) → ℕ → ℕ
  count_buckets [] counts = counts
  count_buckets (x ∷ xs) counts =
      count_buckets xs (elim (bucket x) [ none ↦ counts | some b ↦ update counts b (counts b + 1) ])

  -- `out[pos[bucket]++] = x`; an item without a bucket is skipped.
  unfoldable pub scatter : List X → (ℕ → ℕ) → (ℕ → X) → ℕ → X
  scatter [] pos out = out
  scatter (x ∷ xs) pos out =
      scatter xs (elim (bucket x) [ none ↦ pos | some b ↦ update pos b (pos b + 1) ])
        (elim (bucket x) [ none ↦ out | some b ↦ update out (pos b) x ])

-- ===== src/Poller/Progress.antt =====
-- The progress of the tiles.
use gfd.Base.{
  ℕ, zero, suc, ◌+◌, ◌^◌, ◌<◌, ◌≡◌, ◌≢◌, refl, sym, ap, ap₂, ◌∙◌, arith, none, some, List, length,
  ℕ_discrete, inl, inr, Option-cases,
}
use gfd.Queue.{Descriptor, add64, max_tiles}
use gfd.Driver.{Driver}
use gfd.Batch.{Buckets, no_buckets, count_entries}
use gfd.Batch.Counts.{Counted, entries_of, first_pass}
use gfd.Batch.Groups.{Grouped, batch_groups}
use gfd.Poller.{Poller, add_progress, process_batch_tiled}

module _ (ids counts progress buf : ℕ → ℕ) where
  abbrev after : ℕ → (ℕ → ℕ) × (ℕ → ℕ)
  after n = add_progress n ids counts progress buf

  add_progress-other : (n k : ℕ) → ((b : ℕ) → b < n → ids b ≢ k) → (after n).0 k ≡ progress k
  unfolding add_progress
  add_progress-other zero k h = refl
  add_progress-other (suc n) k h =
      ground (arith, h n, add_progress-other n k (λ b lt. h b (omega arith)))

  add_progress-at :
      (n b : ℕ)
      → b < n
      → ((c : ℕ) → c < n → ids c ≡ ids b → c ≡ b)
      → ((after n).0 (ids b) ≡ add64 (progress (ids b)) (counts b))
        × ((after n).1 (ids b) ≡ (after n).0 (ids b))
  unfolding add_progress
  add_progress-at zero b h once = absurd (omega arith)
  add_progress-at (suc n) b h once = elim (ℕ_discrete b n) [
    | yes same ↦
        let before = add_progress-other n (ids n) (λ c lt e.
          absurd (omega (arith, once c (omega arith) (e ∙ ap ids (sym same)), same, lt))) in
        (
          ground (arith, ap ids same, ap counts same, before),
          ground (arith, ap ids same, ap counts same, before),
        )
    | no other ↦
        let apart : ids n ≢ ids b = λ e. other (sym (once n (omega arith) e)) in
        let ih = add_progress-at n b (omega (arith, h, other)) (λ c lt e. once c (omega arith) e) in
        (ground (arith, apart, ih.0), ground (arith, apart, ih.1))
  ]

module _ (batch : List Descriptor) (unset : ℕ → Descriptor) (progress buf : ℕ → ℕ) (s : Buckets)
    (v : Counted max_tiles s (λ k. length (entries_of k batch)))
    (g : Grouped max_tiles batch unset s) (k : ℕ) (lt : k < max_tiles)
    (fits : progress k + length (entries_of k batch) < 2 ^ 64) where
  abbrev added : (ℕ → ℕ) × (ℕ → ℕ)
  added = add_progress s.num_active s.ids s.counts progress buf

  progress_of :
      ((added).0 k ≡ progress k + length (entries_of k batch))
      × (0 < length (entries_of k batch) → (added).1 k ≡ progress k + length (entries_of k batch))
  progress_of = elim (Option-cases (s.bucket_map k)) [
    | inl e ↦
        let zero_ : length (entries_of k batch) ≡ 0 = v.unseen k e lt in
        let same =
          add_progress-other s.ids s.counts progress buf s.num_active k
            (λ b h f. ground (arith, sym (v.id_bucket b h) ∙ ap s.bucket_map f ∙ e)) in
        (omega (arith, zero_, same), λ h. absurd (omega (arith, zero_, h)))
    | inr (b, e) ↦
        let f = v.bucket_id k b e in
        let at =
          add_progress-at s.ids s.counts progress buf s.num_active b f.0
            (λ d h same. g.once d b h f.0 same) in
        let size : s.counts b ≡ length (entries_of k batch) = v.count k b e in
        let sum : (added).0 k ≡ add64 (progress k) (length (entries_of k batch)) =
          ap (added).0 (sym f.1) ∙ at.0 ∙ ap₂ add64 (ap progress f.1) size in
        let same : (added).1 k ≡ (added).0 k = ap (added).1 (sym f.1) ∙ at.1 ∙ ap (added).0 f.1 in
        (omega (arith, sum, fits), λ h. omega (arith, same, sum, fits))
  ]

-- The progress of the tiles after a batch, where the table of buckets starts empty: the progress of each
-- tile has grown by the number of its entries in the batch, the signal value of each tile of the batch is
-- its progress, and the table of buckets is empty again.
pub process_batch_tiled_progress :
    (drv : Driver) (done_address buf_address : ℕ → ℕ) (unset : ℕ → Descriptor)
    (batch : List Descriptor) (p : Poller) (buf : ℕ → ℕ) (k : ℕ)
    → p.tile_signal_buf ≡ some buf
    → ((t : ℕ) → p.bucket_map t ≡ none)
    → k < max_tiles
    → p.tile_progress k + length (entries_of k batch) < 2 ^ 64
    → let p' = process_batch_tiled drv done_address buf_address unset batch p in
      (p'.tile_progress k ≡ p.tile_progress k + length (entries_of k batch))
      × (0 < length (entries_of k batch)
          → (buf' : ℕ → ℕ) × (p'.tile_signal_buf ≡ some buf')
            × (buf' k ≡ p.tile_progress k + length (entries_of k batch)))
      × ((t : ℕ) → p'.bucket_map t ≡ none)
unfolding process_batch_tiled
process_batch_tiled_progress drv done_address buf_address unset batch p buf k sb free lt fits =
    let s = count_entries max_tiles batch (no_buckets p.bucket_map) in
    let g = batch_groups max_tiles batch unset p.bucket_map free in
    let v = first_pass max_tiles batch p.bucket_map free in
    let r = progress_of batch unset p.tile_progress buf s v g k lt fits in
    (
      rw sb r.0,
      λ h. ((add_progress s.num_active s.ids s.counts p.tile_progress buf).1, rw sb refl, r.1 h),
      g.cleared,
    )

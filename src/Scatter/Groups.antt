-- ===== src/Scatter/Groups.antt =====
-- Counting and summing up the counts make room for every bucket.
use gfd.Base.{
  ℕ, zero, suc, ◌+◌, ◌<◌, ◌≤◌, ◌≡◌, ◌≢◌, sym, ap, ◌∙◌, arith, Option, some, update_self, update_ne,
  List, [], ◌∷◌, length, ℕ_discrete, dec_lt, inl, inr, Option-cases,
}
use gfd.Scatter.{offsets, count_buckets, scatter}
use gfd.Scatter.Segments.{
  segment, in_bucket, in_bucket-miss, size_of, size_of-hit, moved, Apart, scatter-segment,
}

module _ {X : Type 0} (bucket : X → Option ℕ) where
  count_buckets-size_of :
      (xs : List X) (counts : ℕ → ℕ) (b : ℕ)
      → count_buckets bucket xs counts b ≡ counts b + size_of bucket b xs
  unfolding count_buckets in_bucket
  count_buckets-size_of [] counts b = omega arith
  count_buckets-size_of (x ∷ xs) counts b = elim (Option-cases (bucket x)) [
    | inl e ↦
        let miss : bucket x ≢ some b = λ f. ground (arith, e, f) in
        rw e (
          count_buckets-size_of xs counts b
          ∙ ap (λ n. counts b + length n) (sym (in_bucket-miss bucket b x xs miss)))
    | inr (c, e) ↦
        let ih = count_buckets-size_of xs (moved bucket counts c) b in
        elim (ℕ_discrete b c) [
          | yes same ↦
              let hit : bucket x ≡ some b = e ∙ ap some (sym same) in
              let up : moved bucket counts c b ≡ counts b + 1 =
                ap (λ k. moved bucket counts k b) (sym same)
                ∙ update_self counts b (counts b + 1) in
              rw e (omega (arith, ih, up, size_of-hit bucket b x xs hit))
          | no other ↦
              let miss : bucket x ≢ some b = λ f. other (ground (arith, e, f)) in
              let keep : moved bucket counts c b ≡ counts b =
                update_ne counts c b (counts c + 1) (λ f. other (sym f)) in
              rw e (omega (arith, ih, keep, ap length (in_bucket-miss bucket b x xs miss)))
        ]
  ]

  offsets_le : (counts : ℕ → ℕ) (b c : ℕ) → b < c → offsets counts b + counts b ≤ offsets counts c
  unfolding offsets
  offsets_le counts b zero h = absurd (omega arith)
  offsets_le counts b (suc c) h = elim (ℕ_discrete b c) [
    | yes same ↦ rw same (omega arith)
    | no other ↦ omega (arith, offsets_le counts b c (omega (arith, h, other)))
  ]

  pub offsets-Apart :
      (xs : List X) (counts : ℕ → ℕ)
      → ((b : ℕ) → counts b ≡ size_of bucket b xs)
      → Apart bucket (offsets counts) xs
  offsets-Apart xs counts sizes b c i j ne li lj e = elim (dec_lt b c) [
    | yes below ↦ absurd (omega (arith, offsets_le counts b c below, sizes b, li, e))
    | no above ↦
        absurd (omega (arith, offsets_le counts c b (omega (arith, above, ne)), sizes c, lj, e))
  ]

  -- Counting, summing the counts up and scattering groups the items by bucket: each bucket's part of the
  -- array holds the items of the bucket, all of them, in the order in which they came.
  pub scatter_groups :
      (xs : List X) (out : ℕ → X) (b : ℕ)
      → let counts = count_buckets bucket xs (λ k. 0) in
        segment (scatter bucket xs (offsets counts) out) (offsets counts b) (counts b)
        ≡ in_bucket bucket b xs
  scatter_groups xs out b =
      let counts = count_buckets bucket xs (λ k. 0) in
      let sizes : (k : ℕ) → counts k ≡ size_of bucket k xs =
        λ k. omega (arith, count_buckets-size_of xs (λ k. 0) k) in
      ap (segment (scatter bucket xs (offsets counts) out) (offsets counts b)) (sizes b)
      ∙ scatter-segment bucket xs (offsets counts) out b (offsets-Apart xs counts sizes)

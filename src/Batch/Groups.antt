-- ===== src/Batch/Groups.antt =====
-- The whole grouping of a batch: what each tile, or list, is given.
use gfd.Base.{
  ℕ, zero, suc, ◌<◌, ◌≤◌, ◌≡◌, ◌≢◌, refl, sym, ap, subst, ◌∙◌, arith, ◌==◌, Option, none, List, [],
  ◌∷◌, length, map, ℕ_discrete, dec_lt, inl, inr, Option-cases,
}
use gfd.Queue.{Descriptor}
use gfd.Scatter.{offsets, scatter}
use gfd.Scatter.Segments.{segment, is_in, in_bucket, size_of, scatter-segment}
use gfd.Scatter.Groups.{offsets-Apart}
use gfd.Batch.{
  id_of, sg_of, Buckets, count_entries, no_buckets, bucket_of, bucket_entries, clear_buckets,
}
use gfd.Batch.Counts.{Counted, entries_of, first_pass}

module _ (limit : ℕ) (s : Buckets) (seen : ℕ → ℕ) (v : Counted limit s seen) where
  abbrev bucket : Descriptor → Option ℕ
  bucket = bucket_of limit s.bucket_map

  in_bucket_eq :
      (b : ℕ) (d : Descriptor) → b < s.num_active → is_in bucket b d ≡ (id_of d == s.ids b)
  in_bucket_eq b d h = elim (Option-cases (s.bucket_map (id_of d))) [
    | inl e ↦
        let other : id_of d ≢ s.ids b =
          λ same. ground (arith, sym (v.id_bucket b h) ∙ ap s.bucket_map (sym same) ∙ e) in
        ground (arith, e, other)
    | inr (c, e) ↦
        let f = v.bucket_id (id_of d) c e in
        elim (ℕ_discrete c b) [
          | yes same ↦ ground (arith, e, f, same, ap s.ids same)
          | no diff ↦
              let other : id_of d ≢ s.ids b = λ same.
                ground (arith, sym (v.id_bucket b h) ∙ ap s.bucket_map (sym same) ∙ e, diff) in
              ground (arith, e, f, other, diff)
        ]
  ]

  in_bucket-entries_of :
      (b : ℕ) (ds : List Descriptor)
      → b < s.num_active
      → in_bucket bucket b ds ≡ entries_of (s.ids b) ds
  unfolding in_bucket entries_of
  in_bucket-entries_of b [] h = refl
  in_bucket-entries_of b (d ∷ ds) h = rw (in_bucket_eq b d h, in_bucket-entries_of b ds h) refl

  in_bucket-unused : (b : ℕ) (ds : List Descriptor) → s.num_active ≤ b → in_bucket bucket b ds ≡ []
  unfolding in_bucket
  in_bucket-unused b [] h = refl
  in_bucket-unused b (d ∷ ds) h = elim (Option-cases (s.bucket_map (id_of d))) [
    | inl e ↦ ground (arith, e, in_bucket-unused b ds h)
    | inr (c, e) ↦ ground (arith, e, v.bucket_id (id_of d) c e, in_bucket-unused b ds h)
  ]

clear_buckets-free :
    (n : ℕ) (ids : ℕ → ℕ) (bucket_map : ℕ → Option ℕ) (k : ℕ)
    → bucket_map k ≡ none
    → clear_buckets n ids bucket_map k ≡ none
unfolding clear_buckets
clear_buckets-free zero ids bucket_map k e = e
clear_buckets-free (suc n) ids bucket_map k e =
    ground (arith, clear_buckets-free n ids bucket_map k e)

clear_buckets-used :
    (n : ℕ) (ids : ℕ → ℕ) (bucket_map : ℕ → Option ℕ) (b : ℕ)
    → b < n
    → clear_buckets n ids bucket_map (ids b) ≡ none
unfolding clear_buckets
clear_buckets-used zero ids bucket_map b h = absurd (omega arith)
clear_buckets-used (suc n) ids bucket_map b h = elim (ℕ_discrete b n) [
  | yes same ↦ ground (arith, ap ids same)
  | no other ↦ ground (arith, clear_buckets-used n ids bucket_map b (omega (arith, h, other)))
]

-- The outcome of the two passes and the clearing.
pub record Grouped (limit : ℕ) (batch : List Descriptor) (unset : ℕ → Descriptor) (s : Buckets)
    : Type 0 where
  pub own_entries :
      (b : ℕ)
      → b < s.num_active
      → bucket_entries limit batch unset s b ≡ map sg_of (entries_of (s.ids b) batch)
  pub below_limit : (b : ℕ) → b < s.num_active → s.ids b < limit
  pub once : (b c : ℕ) → b < s.num_active → c < s.num_active → s.ids b ≡ s.ids c → b ≡ c
  pub complete :
      (k : ℕ)
      → k < limit
      → 0 < length (entries_of k batch)
      → (b : ℕ) × (b < s.num_active) × (s.ids b ≡ k)
  pub cleared : (k : ℕ) → clear_buckets s.num_active s.ids s.bucket_map k ≡ none

module _ (limit : ℕ) (batch : List Descriptor) (unset : ℕ → Descriptor) (s : Buckets)
    (v : Counted limit s (λ k. length (entries_of k batch))) where
  counts-size_of : (b : ℕ) → s.counts b ≡ size_of (bucket_of limit s.bucket_map) b batch
  counts-size_of b = elim (dec_lt b s.num_active) [
    | yes h ↦
        v.count (s.ids b) b (v.id_bucket b h)
        ∙ ap length
            (sym (in_bucket-entries_of limit s (λ k. length (entries_of k batch)) v b batch h))
    | no h ↦
        v.unused b (omega (arith, h))
        ∙ ap length (
            sym (
              in_bucket-unused limit s (λ k. length (entries_of k batch)) v b batch
                (omega (arith, h))))
  ]

  own_entries_of :
      (b : ℕ)
      → b < s.num_active
      → bucket_entries limit batch unset s b ≡ map sg_of (entries_of (s.ids b) batch)
  unfolding bucket_entries
  own_entries_of b h =
      let place = bucket_of limit s.bucket_map in
      let flat = scatter place batch (offsets s.counts) unset in
      ap (map sg_of) (
        ap (segment flat (offsets s.counts b)) (counts-size_of b)
        ∙ scatter-segment place batch (offsets s.counts) unset b
            (offsets-Apart place batch s.counts counts-size_of)
        ∙ in_bucket-entries_of limit s (λ k. length (entries_of k batch)) v b batch h)

  Counted-Grouped : Grouped limit batch unset s
  Counted-Grouped = record {
    own_entries = own_entries_of;
    below_limit = λ b h. (v.bucket_id (s.ids b) b (v.id_bucket b h)).2;
    once = λ b c h h' same. ground (arith, v.id_bucket b h, v.id_bucket c h', ap s.bucket_map same);
    complete = λ k lt some. elim (Option-cases (s.bucket_map k)) [
      | inl e ↦ absurd (omega (arith, v.unseen k e lt, some))
      | inr (b, e) ↦ (b, (v.bucket_id k b e).0, (v.bucket_id k b e).1)
    ];
    cleared = λ k. elim (Option-cases (s.bucket_map k)) [
      | inl e ↦ clear_buckets-free s.num_active s.ids s.bucket_map k e
      | inr (b, e) ↦
          let f = v.bucket_id k b e in
          subst (λ j. clear_buckets s.num_active s.ids s.bucket_map j ≡ none) f.1
            (clear_buckets-used s.num_active s.ids s.bucket_map b f.0)
    ];
  }

-- On a table with no bucket in it, the two passes hand to each active tile, or list, its own entries, all
-- of them, in the order in which they stand in the batch. Every id below the limit that occurs is
-- active, once, and the table is left with no bucket in it.
pub batch_groups :
    (limit : ℕ) (batch : List Descriptor) (unset : ℕ → Descriptor) (bucket_map : ℕ → Option ℕ)
    → ((k : ℕ) → bucket_map k ≡ none)
    → Grouped limit batch unset (count_entries limit batch (no_buckets bucket_map))
batch_groups limit batch unset bucket_map free =
    Counted-Grouped limit batch unset (count_entries limit batch (no_buckets bucket_map))
      (first_pass limit batch bucket_map free)

-- ===== src/Batch/Counts.antt =====
-- The first pass: every id below the limit that occurs in the batch has one bucket, with its count.
use gfd.Base.{
  ℕ, ◌+◌, ◌<◌, ◌≤◌, ◌≡◌, ◌≢◌, refl, sym, ap, subst, fun_ext, ◌∙◌, arith, ◌==◌, if◌then◌else◌,
  Option, none, some, update, List, [], ◌∷◌, length, ℕ_discrete, dec_le, inl, inr, Option-cases,
}
use gfd.Queue.{Descriptor}
use gfd.Batch.{id_of, Buckets, count_entry, count_entries, no_buckets}

-- How often each id has occurred.
abbrev tally : Descriptor → (ℕ → ℕ) → ℕ → ℕ
tally d seen = update seen (id_of d) (seen (id_of d) + 1)

pub record Counted (limit : ℕ) (s : Buckets) (seen : ℕ → ℕ) : Type 0 where
  pub bucket_id :
      (k b : ℕ) → s.bucket_map k ≡ some b → (b < s.num_active) × (s.ids b ≡ k) × (k < limit)
  pub id_bucket : (b : ℕ) → b < s.num_active → s.bucket_map (s.ids b) ≡ some b
  pub count : (k b : ℕ) → s.bucket_map k ≡ some b → s.counts b ≡ seen k
  pub unseen : (k : ℕ) → s.bucket_map k ≡ none → k < limit → seen k ≡ 0
  pub unused : (b : ℕ) → s.num_active ≤ b → s.counts b ≡ 0

module _ (limit : ℕ) (d : Descriptor) (s : Buckets) (seen : ℕ → ℕ) (v : Counted limit s seen) where
  over_limit : limit ≤ id_of d → Counted limit s (tally d seen)
  over_limit h = record {
    bucket_id = v.bucket_id;
    id_bucket = v.id_bucket;
    count = λ k b e. ground (arith, v.count k b e, v.bucket_id k b e, h);
    unseen = λ k e lt. ground (arith, v.unseen k e lt, h);
    unused = v.unused;
  }

  old_bucket :
      (b : ℕ)
      → s.bucket_map (id_of d) ≡ some b
      → Counted limit (record s { counts = update s.counts b (s.counts b + 1) }) (tally d seen)
  old_bucket b at = record {
    bucket_id = v.bucket_id;
    id_bucket = v.id_bucket;
    count = λ k c e. elim (ℕ_discrete k (id_of d)) [
      | yes same ↦
          let mine : s.bucket_map (id_of d) ≡ some c = ap s.bucket_map (sym same) ∙ e in
          ground (arith, v.count (id_of d) b at, mine, at, same)
      | no other ↦
          ground (arith, v.count k c e, v.bucket_id k c e, v.bucket_id (id_of d) b at, other)
    ];
    unseen = λ k e lt. ground (arith, v.unseen k e lt, at);
    unused = λ c le. ground (arith, v.unused c le, v.bucket_id (id_of d) b at);
  }

  old :
      (k b : ℕ)
      → k ≢ id_of d
      → update s.bucket_map (id_of d) (some s.num_active) k ≡ some b
      → s.bucket_map k ≡ some b
  old k b other e = ground (arith, e, other)

  new_bucket :
      s.bucket_map (id_of d) ≡ none
      → id_of d < limit
      → Counted limit
          (record s {
            bucket_map = update s.bucket_map (id_of d) (some s.num_active);
            ids = update s.ids s.num_active (id_of d);
            counts = update s.counts s.num_active (s.counts s.num_active + 1);
            num_active = s.num_active + 1;
          })
          (tally d seen)
  new_bucket at lt = record {
    bucket_id = λ k b e. elim (ℕ_discrete k (id_of d)) [
      | yes same ↦ ground (arith, e, same, lt)
      | no other ↦ ground (arith, v.bucket_id k b (old k b other e), other)
    ];
    id_bucket = λ b h. elim (ℕ_discrete b s.num_active) [
      | yes same ↦ ground (arith, same)
      | no other ↦
          let before = v.id_bucket b (omega (arith, h, other)) in
          let apart : s.ids b ≢ id_of d =
            λ same. ground (arith, sym before ∙ ap s.bucket_map same ∙ at) in
          ground (arith, before, apart, other)
    ];
    count = λ k b e. elim (ℕ_discrete k (id_of d)) [
      | yes same ↦ ground (arith, e, same, v.unused s.num_active, v.unseen (id_of d) at lt)
      | no other ↦
          ground (arith, v.count k b (old k b other e), v.bucket_id k b (old k b other e), other)
    ];
    unseen = λ k e h. elim (ℕ_discrete k (id_of d)) [
      | yes same ↦ ground (arith, e, same)
      | no other ↦
          let before : s.bucket_map k ≡ none = ground (arith, e, other) in
          ground (arith, v.unseen k before h, other)
    ];
    unused = λ b le. ground (arith, v.unused b, le);
  }

-- The entries of an id, in order.
unfoldable pub entries_of : ℕ → List Descriptor → List Descriptor
entries_of k [] = []
entries_of k (d ∷ ds) = let rest = entries_of k ds in if id_of d == k then d ∷ rest else rest

module _ (limit : ℕ) where
  count_entry-Counted :
      (d : Descriptor) (s : Buckets) (seen : ℕ → ℕ)
      → Counted limit s seen
      → Counted limit (count_entry limit d s) (tally d seen)
  unfolding count_entry
  count_entry-Counted d s seen v = elim (dec_le limit (id_of d)) [
    | yes over ↦
        let same : count_entry limit d s ≡ s = ground (arith, over) in
        subst (λ t. Counted limit t (tally d seen)) (sym same) (over_limit limit d s seen v over)
    | no under ↦ elim (Option-cases (s.bucket_map (id_of d))) [
      | inl e ↦
          let n = s.num_active in
          let same : count_entry limit d s ≡ record s {
            bucket_map = update s.bucket_map (id_of d) (some n);
            ids = update s.ids n (id_of d);
            counts = update s.counts n (s.counts n + 1);
            num_active = n + 1;
          } =
            ground (arith, under, e) in
          subst (λ t. Counted limit t (tally d seen)) (sym same)
            (new_bucket limit d s seen v e (omega (arith, under)))
      | inr (b, e) ↦
          let same : count_entry limit d s
              ≡ record s { counts = update s.counts b (s.counts b + 1) } =
            ground (arith, under, e) in
          subst (λ t. Counted limit t (tally d seen)) (sym same) (old_bucket limit d s seen v b e)
    ]
  ]

  abbrev tally_all : List Descriptor → (ℕ → ℕ) → ℕ → ℕ
  tally_all [] seen = seen
  tally_all (d ∷ ds) seen = tally_all ds (tally d seen)

  count_entries-Counted :
      (ds : List Descriptor) (s : Buckets) (seen : ℕ → ℕ)
      → Counted limit s seen
      → Counted limit (count_entries limit ds s) (tally_all ds seen)
  unfolding count_entries
  count_entries-Counted [] s seen v = v
  count_entries-Counted (d ∷ ds) s seen v =
      count_entries-Counted ds (count_entry limit d s) (tally d seen)
        (count_entry-Counted d s seen v)

  tally_all-entries_of :
      (ds : List Descriptor) (seen : ℕ → ℕ) (k : ℕ)
      → tally_all ds seen k ≡ seen k + length (entries_of k ds)
  unfolding entries_of
  tally_all-entries_of [] seen k = omega arith
  tally_all-entries_of (d ∷ ds) seen k =
      let ih = tally_all-entries_of ds (tally d seen) k in
      elim (ℕ_discrete (id_of d) k) [
        | yes same ↦ ground (arith, ih, same)
        | no other ↦ ground (arith, ih, other)
      ]

  start-Counted :
      (bucket_map : ℕ → Option ℕ)
      → ((k : ℕ) → bucket_map k ≡ none)
      → Counted limit (no_buckets bucket_map) (λ k. 0)
  start-Counted bucket_map free = record {
    bucket_id = λ k b e. ground (arith, e, free k);
    id_bucket = λ b h. absurd (omega arith);
    count = λ k b e. ground (arith, e, free k);
    unseen = λ k e h. refl;
    unused = λ b h. refl;
  }

  -- The first pass over a batch, on a table with no bucket in it: every id has the count of its entries.
  pub first_pass :
      (batch : List Descriptor) (bucket_map : ℕ → Option ℕ)
      → ((k : ℕ) → bucket_map k ≡ none)
      → Counted limit
          (count_entries limit batch (no_buckets bucket_map))
          (λ k. length (entries_of k batch))
  first_pass batch bucket_map free =
      subst (Counted limit (count_entries limit batch (no_buckets bucket_map)))
        (fun_ext (λ k. tally_all-entries_of batch (λ j. 0) k ∙ omega arith))
        (count_entries-Counted batch (no_buckets bucket_map) (λ k. 0)
          (start-Counted bucket_map free))

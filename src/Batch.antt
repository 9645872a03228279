-- ===== src/Batch.antt =====
-- src/batch_processor.cpp, process_batch_tiled and process_batch_sg: the grouping of a batch by tile, or by
-- list. `flat_indices` holds indices into the batch, which does not change; here the array holds the
-- descriptor at each index.
pub mod Counts
pub mod Groups
pub mod Tests
use gfd.Base.{
  ℕ, zero, suc, ◌+◌, ◌/◌, ◌^◌, leb, if◌then◌else◌, Option, none, some, update, List, [], ◌∷◌, map,
}
use gfd.Queue.{Descriptor}
use gfd.Driver.{SgEntry}
use gfd.Scatter.{offsets, scatter}
use gfd.Scatter.Segments.{segment}

-- `(uint32_t)(user_data >> 32)`
abbrev pub id_of : Descriptor → ℕ
id_of d = d.user_data / 2 ^ 32

abbrev pub sg_of : Descriptor → SgEntry
sg_of d = record { dst = d.dst_addr; src = d.src_addr; size = d.size }

-- `bucket_map` is the thread-local table, with `none` for -1; `ids` and `counts` are the arrays of the
-- active buckets, `num_active` of them.
pub record Buckets : Type 0 where
  pub bucket_map : ℕ → Option ℕ
  pub ids : ℕ → ℕ
  pub counts : ℕ → ℕ
  pub num_active : ℕ

-- The arrays of a call, on the table that the last call left. `ids` is not initialised.
abbrev pub no_buckets : (ℕ → Option ℕ) → Buckets
no_buckets bucket_map = record {
  bucket_map = bucket_map;
  ids = λ b. 0;
  counts = λ b. 0;
  num_active = 0;
}

-- `limit` is MAX_TILES, or MAX_SG_LISTS.
module _ (limit : ℕ) where
  unfoldable pub count_entry : Descriptor → Buckets → Buckets
  count_entry d s =
      let id = id_of d in
      let n = s.num_active in
      let counted : Buckets = elim (s.bucket_map id) [
        | none ↦ record s {
          bucket_map = update s.bucket_map id (some n);
          ids = update s.ids n id;
          counts = update s.counts n (s.counts n + 1);
          num_active = n + 1;
        }
        | some b ↦ record s { counts = update s.counts b (s.counts b + 1) }
      ] in
      if leb limit id then s else counted

  unfoldable pub count_entries : List Descriptor → Buckets → Buckets
  unfolding count_entry
  count_entries [] s = s
  count_entries (d ∷ ds) s = count_entries ds (count_entry d s)

  -- The bucket of an entry in the second pass.
  abbrev pub bucket_of : (ℕ → Option ℕ) → Descriptor → Option ℕ
  bucket_of bucket_map d = if leb limit (id_of d) then none else bucket_map (id_of d)

  -- The entries of bucket `b`, as they are handed to the copy engine.
  unfoldable pub bucket_entries : List Descriptor → (ℕ → Descriptor) → Buckets → ℕ → List SgEntry
  bucket_entries batch unset s b =
      let flat = scatter (bucket_of s.bucket_map) batch (offsets s.counts) unset in
      map sg_of (segment flat (offsets s.counts b) (s.counts b))

-- `for (b < n) bucket_map[ids[b]] = -1`
unfoldable pub clear_buckets : ℕ → (ℕ → ℕ) → (ℕ → Option ℕ) → ℕ → Option ℕ
clear_buckets zero ids bucket_map = bucket_map
clear_buckets (suc n) ids bucket_map = update (clear_buckets n ids bucket_map) (ids n) none

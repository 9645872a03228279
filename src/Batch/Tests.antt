-- ===== src/Batch/Tests.antt =====
-- A batch with the entries of three tiles interleaved.
use gfd.Base.{ℕ, ◌+◌, ◌*◌, ◌^◌, ◌≡◌, refl, Option, none, List, [], ◌∷◌}
use gfd.Queue.{Descriptor}
use gfd.Scatter.{offsets, scatter}
use gfd.Batch.{sg_of, no_buckets, bucket_entries, count_entry, count_entries}
use gfd.Batch.Groups.{Grouped, batch_groups}

abbrev pub of_tile : ℕ → ℕ → Descriptor
of_tile t n = record {
  src_addr = 1000 + n;
  dst_addr = 2000 + n;
  size = 4;
  flags = 0;
  user_data = t * 2 ^ 32 + n;
  sequence = 0;
}

abbrev pub mixed : List Descriptor
mixed = of_tile 7 0 ∷ of_tile 2 4 ∷ of_tile 7 8 ∷ of_tile 2000 12 ∷ of_tile 2 16 ∷ []

abbrev pub unset : ℕ → Descriptor
unset i = of_tile 0 0

abbrev pub no_bucket : ℕ → Option ℕ
no_bucket k = none

second_bucket :
    bucket_entries 1024 mixed unset (count_entries 1024 mixed (no_buckets no_bucket)) 1
    ≡ sg_of (of_tile 2 4) ∷ sg_of (of_tile 2 16) ∷ []
unfolding bucket_entries count_entries count_entry offsets scatter
second_bucket = refl

batch_groups_example : Grouped 1024 mixed unset (count_entries 1024 mixed (no_buckets no_bucket))
batch_groups_example = batch_groups 1024 mixed unset no_bucket (λ k. refl)

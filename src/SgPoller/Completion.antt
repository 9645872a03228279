-- ===== src/SgPoller/Completion.antt =====
-- When a list counts as completed.
use gfd.Base.{
  ℕ, zero, suc, ◌+◌, ◌^◌, ◌<◌, ◌≡◌, refl, ap, ◌∙◌, ◌&&◌, arith, Option, none, some, update, List,
  [], ◌∷◌, ◌++◌, length, length-append, Bool-cases, inl, inr,
}
use gfd.Queue.{Descriptor, add64}
use gfd.Driver.{Driver}
use gfd.Batch.{id_of, Buckets, no_buckets, count_entry, count_entries}
use gfd.Batch.Groups.{batch_groups}
use gfd.Poller.{for_buckets}
use gfd.SgPoller.{SgPoller, max_sg_lists, signal_on_stream, signal_from_host, process_batch_sg}

-- Every entry belongs to list `k`.
pub data AllOf (k : ℕ) : List Descriptor → Type 0 where
  nothing : AllOf k []
  entry : {d : Descriptor} {ds : List Descriptor} → id_of d ≡ k → AllOf k ds → AllOf k (d ∷ ds)

known_list :
    (k : ℕ) (d : Descriptor) (s : Buckets)
    → k < max_sg_lists
    → id_of d ≡ k
    → s.bucket_map k ≡ some 0
    → count_entry max_sg_lists d s ≡ record s { counts = update s.counts 0 (s.counts 0 + 1) }
unfolding count_entry
known_list k d s lt same at = ground (arith, same, lt, ap s.bucket_map same ∙ at)

new_list :
    (k : ℕ) (d : Descriptor) (bucket_map : ℕ → Option ℕ)
    → k < max_sg_lists
    → id_of d ≡ k
    → bucket_map k ≡ none
    → let s = count_entry max_sg_lists d (no_buckets bucket_map) in
      (s.bucket_map k ≡ some 0) × (s.num_active ≡ 1)
unfolding count_entry
new_list k d bucket_map lt same at =
    let free = ap bucket_map same ∙ at in
    (ground (arith, same, lt, free), ground (arith, same, lt, free))

one_bucket :
    (k : ℕ) (ds : List Descriptor) (s : Buckets)
    → k < max_sg_lists
    → AllOf k ds
    → s.bucket_map k ≡ some 0
    → s.num_active ≡ 1
    → (count_entries max_sg_lists ds s).num_active ≡ 1
unfolding count_entries
one_bucket k [] s lt nothing at one = one
one_bucket k (d ∷ ds) s lt (entry same rest) at one =
    ap (λ t. (count_entries max_sg_lists ds t).num_active) (known_list k d s lt same at)
    ∙ one_bucket k ds (record s { counts = update s.counts 0 (s.counts 0 + 1) }) lt rest at one

-- A batch with entries of one list alone has one active list.
one_active :
    (k : ℕ) (ds : List Descriptor) (bucket_map : ℕ → Option ℕ)
    → k < max_sg_lists
    → AllOf k ds
    → 0 < length ds
    → bucket_map k ≡ none
    → (count_entries max_sg_lists ds (no_buckets bucket_map)).num_active ≡ 1
unfolding count_entries
one_active k [] bucket_map lt nothing some_entry free = absurd (omega arith)
one_active k (d ∷ ds) bucket_map lt (entry same rest) some_entry free =
    let s = new_list k d bucket_map lt same free in
    one_bucket k ds (count_entry max_sg_lists d (no_buckets bucket_map)) lt rest s.0 s.1

length-for_buckets : {A : Type 0} (n : ℕ) (f : ℕ → A) → length (for_buckets n f) ≡ n
length-for_buckets zero f = refl
length-for_buckets (suc n) f =
    omega (arith, length-append (for_buckets n f) (f n ∷ []), length-for_buckets n f)

AllOf-append : (k : ℕ) {xs ys : List Descriptor} → AllOf k xs → AllOf k ys → AllOf k (xs ++ ys)
AllOf-append k nothing b = b
AllOf-append k (entry e a) b = entry e (AllOf-append k a b)

module _ (drv : Driver) (done_address buf_address : ℕ → ℕ) (unset : ℕ → Descriptor) where
  abbrev process : List Descriptor → SgPoller → SgPoller
  process = process_batch_sg drv done_address buf_address unset

  completed_count :
      (batch : List Descriptor) (p : SgPoller)
      → (process batch p).lists_completed
        ≡ add64 p.lists_completed
            (count_entries max_sg_lists batch (no_buckets p.bucket_map)).num_active
  unfolding process_batch_sg signal_on_stream signal_from_host
  completed_count batch p =
      let s = count_entries max_sg_lists batch (no_buckets p.bucket_map) in
      let n = length-for_buckets s.num_active s.ids in
      elim (Bool-cases (p.has_list_done && p.signal_stream)) [
        | inl e ↦ rw e (ap (add64 p.lists_completed) n)
        | inr e ↦ rw e (ap (add64 p.lists_completed) n)
      ]

  table_free :
      (batch : List Descriptor) (p : SgPoller)
      → ((t : ℕ) → p.bucket_map t ≡ none)
      → (t : ℕ) → (process batch p).bucket_map t ≡ none
  unfolding process_batch_sg signal_on_stream signal_from_host
  table_free batch p free t =
      let g = batch_groups max_sg_lists batch unset p.bucket_map free in
      elim (Bool-cases (p.has_list_done && p.signal_stream)) [
        | inl e ↦ rw e (g.cleared t)
        | inr e ↦ rw e (g.cleared t)
      ]

  completes_once :
      (k : ℕ) (batch : List Descriptor) (p : SgPoller)
      → k < max_sg_lists
      → AllOf k batch
      → 0 < length batch
      → ((t : ℕ) → p.bucket_map t ≡ none)
      → p.lists_completed + 1 < 2 ^ 64
      → (process batch p).lists_completed ≡ p.lists_completed + 1
  completes_once k batch p lt all some_entry free fits = omega (
    arith,
    completed_count batch p,
    one_active k batch p.bucket_map lt all some_entry (free k),
    fits,
  )

  -- The entries of one list count as one completed list in one batch, and as two if the poller took them
  -- in two batches: `lists_completed` then runs ahead of the lists that are done.
  pub split_list_counted_twice :
      (k : ℕ) (xs ys : List Descriptor) (p : SgPoller)
      → k < max_sg_lists
      → AllOf k xs
      → AllOf k ys
      → 0 < length xs
      → 0 < length ys
      → ((t : ℕ) → p.bucket_map t ≡ none)
      → p.lists_completed + 2 < 2 ^ 64
      → ((process (xs ++ ys) p).lists_completed ≡ p.lists_completed + 1)
        × ((process ys (process xs p)).lists_completed ≡ p.lists_completed + 2)
  split_list_counted_twice k xs ys p lt all_xs all_ys some_x some_y free fits =
      let first = completes_once k xs p lt all_xs some_x free (omega arith) in
      let second =
        completes_once k ys (process xs p) lt all_ys some_y (table_free xs p free)
          (omega (arith, first, fits)) in
      (
        completes_once k (xs ++ ys) p lt (AllOf-append k all_xs all_ys)
            (omega (arith, length-append xs ys, some_x)) free (omega arith),
        omega (arith, second, first),
      )

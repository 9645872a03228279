-- ===== src/RadixSort/Entries.antt =====
-- The sort keeps the entries.
use gfd.Base.{
  ℕ, ◌^◌, ◌≡◌, refl, sym, subst, true, arith, leb, some, Option, inl, inr, List, [], ◌∷◌, length,
  Bool-cases,
}
use gfd.Driver.{SgEntry}
use gfd.Memory.Cover.{In, SameEntries}
use gfd.Scatter.Segments.{is_in, in_bucket}
use gfd.RadixSort.{radix_sort_sg}
use gfd.RadixSort.Order.{low, with_low, radix_sort_sg_lem}

-- What is relied on of std::sort: it permutes the entries.
abbrev pub KeepsEntries : ((SgEntry → ℕ) → List SgEntry → List SgEntry) → Type 0
KeepsEntries std_sort =
    (key_fn : SgEntry → ℕ) (xs : List SgEntry) → SameEntries (std_sort key_fn xs) xs

module _ (bucket : SgEntry → Option ℕ) where
  in_bucket-In : (b : ℕ) (e : SgEntry) (xs : List SgEntry) → In e (in_bucket bucket b xs) → In e xs
  unfolding in_bucket
  in_bucket-In b e [] m = m
  in_bucket-In b e (x ∷ xs) m = elim (Bool-cases (is_in bucket b x)) [
    | inl hit ↦
        let found : In e (x ∷ in_bucket bucket b xs) = rw hit at m in
        elim found [ inl same ↦ inl same | inr later ↦ inr (in_bucket-In b e xs later) ]
    | inr miss ↦ inr (in_bucket-In b e xs (rw miss at m))
  ]

  In-in_bucket :
      (b : ℕ) (e : SgEntry) (xs : List SgEntry)
      → is_in bucket b e ≡ true
      → In e xs
      → In e (in_bucket bucket b xs)
  unfolding in_bucket
  In-in_bucket b e [] h m = m
  In-in_bucket b e (x ∷ xs) h (inl same) =
      let hit : is_in bucket b x ≡ true = subst (λ y. is_in bucket b y ≡ true) same h in
      rw hit (inl same)
  In-in_bucket b e (x ∷ xs) h (inr m) =
      let later = In-in_bucket b e xs h m in
      elim (Bool-cases (is_in bucket b x)) [
        | inl hit ↦ rw hit (inr later)
        | inr miss ↦ rw miss later
      ]

module _ (key_fn : SgEntry → ℕ) (unset : ℕ → SgEntry)
    (std_sort : (SgEntry → ℕ) → List SgEntry → List SgEntry) where
  -- The lists of the entries of each value of the lower bits decide which entries there are.
  low-In :
      (xs ys : List SgEntry) (e : SgEntry)
      → ((v : ℕ) → with_low key_fn v xs ≡ with_low key_fn v ys)
      → In e xs
      → In e ys
  low-In xs ys e same m =
      let v = low key_fn (2 ^ 32) e in
      let bucket : SgEntry → Option ℕ = λ x. some (low key_fn (2 ^ 32) x) in
      in_bucket-In bucket v e ys
        (subst (In e) (same v) (In-in_bucket bucket v e xs (ground arith) m))

  -- Whatever the number of entries, the sorted list has the same entries.
  pub radix_sort_sg-SameEntries :
      KeepsEntries std_sort
      → (arr : List SgEntry) → SameEntries (radix_sort_sg key_fn std_sort unset arr) arr
  radix_sort_sg-SameEntries keeps arr = elim (Bool-cases (leb (length arr) 64)) [
    | inl few ↦
        let e : radix_sort_sg key_fn std_sort unset arr ≡ std_sort key_fn arr =
          unfold radix_sort_sg in rw few refl in
        subst (λ l. SameEntries l arr) (sym e) (keeps key_fn arr)
    | inr many ↦
        let sorted = radix_sort_sg_lem key_fn unset std_sort arr (ground (arith, many)) in
        let out = radix_sort_sg key_fn std_sort unset arr in
        record {
          there = λ e m. low-In out arr e sorted.1 m;
          back = λ e m. low-In arr out e (λ v. sym (sorted.1 v)) m;
        }
  ]

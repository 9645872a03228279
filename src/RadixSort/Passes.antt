-- ===== src/RadixSort/Passes.antt =====
-- A pass gathers the entries by one digit, and four passes sort them by the lower 32 bits of the key.
use gfd.Base.{
  ℕ, zero, suc, ◌+◌, ◌<◌, ◌≡◌, ◌≢◌, refl, sym, ap, ap₂, ◌∙◌, arith, ltb, ◌==◌, if◌then◌else◌,
  Option, some, List, [], ◌∷◌, ◌++◌, length, length-append, ℕ_discrete, dec_lt,
}
use native.Mathlib.Nat.{zero-add, add-zero}
use gfd.Driver.{SgEntry}
use gfd.Scatter.{offsets, count_buckets, scatter}
use gfd.Scatter.Segments.{segment, in_bucket, in_bucket-hit, in_bucket-miss}
use gfd.Scatter.Groups.{scatter_groups}
use gfd.RadixSort.{radix_size, digit, bucket_at, radix_pass}
use gfd.RadixSort.Sorted.{gathered}

module _ {X : Type 0} where
  segment-append :
      (out : ℕ → X) (from m n : ℕ)
      → segment out from (m + n) ≡ segment out from m ++ segment out (from + m) n
  segment-append out from zero n = ap₂ (segment out) (sym (add-zero from)) (zero-add n)
  segment-append out from (suc m) n =
      let e : suc m + n ≡ suc (m + n) = omega arith in
      let shift : from + suc m ≡ from + 1 + m = omega arith in
      rw (e, shift) (ap (◌∷◌ (out from)) (segment-append out (from + 1) m n))

  length-segment : (out : ℕ → X) (from n : ℕ) → length (segment out from n) ≡ n
  length-segment out from zero = refl
  length-segment out from (suc n) = omega (arith, length-segment out (from + 1) n)

module _ {X : Type 0} (d : X → ℕ) where
  abbrev pub bucket : X → Option ℕ
  bucket x = some (d x)

  segment-gathered :
      (n : ℕ) (xs : List X) (unset : ℕ → X)
      → let counts = count_buckets bucket xs (λ b. 0) in
        segment (scatter bucket xs (offsets counts) unset) 0 (offsets counts n)
        ≡ gathered bucket n xs
  unfolding offsets
  segment-gathered zero xs unset = refl
  segment-gathered (suc n) xs unset =
      let counts = count_buckets bucket xs (λ b. 0) in
      let flat = scatter bucket xs (offsets counts) unset in
      segment-append flat 0 (offsets counts n) (counts n)
      ∙ ap₂ ◌++◌ (segment-gathered n xs unset) (
          ap (λ k. segment flat k (counts n)) (zero-add (offsets counts n))
          ∙ scatter_groups bucket xs unset n)

  length-gathered :
      (n : ℕ) (x : X) (xs : List X)
      → length (gathered bucket n (x ∷ xs))
        ≡ (if ltb (d x) n then 1 else 0) + length (gathered bucket n xs)
  length-gathered zero x xs = ground arith
  length-gathered (suc n) x xs =
      let ih = length-gathered n x xs in
      let whole = length-append (gathered bucket n (x ∷ xs)) (in_bucket bucket n (x ∷ xs)) in
      let less = length-append (gathered bucket n xs) (in_bucket bucket n xs) in
      elim (ℕ_discrete (d x) n) [
        | yes same ↦
            let hit = ap length (in_bucket-hit bucket n x xs (ap some same)) in
            ground (arith, whole, less, ih, hit, same)
        | no other ↦
            let miss : bucket x ≢ some n = λ e. other (ground (arith, e)) in
            let size = ap length (in_bucket-miss bucket n x xs miss) in
            ground (arith, whole, less, ih, size, other)
      ]

  gathered_none : (n : ℕ) → length (gathered bucket n []) ≡ 0
  unfolding in_bucket
  gathered_none zero = refl
  gathered_none (suc n) =
      omega (arith, length-append (gathered bucket n []) (in_bucket bucket n []), gathered_none n)

  gathered_all :
      (n : ℕ) (xs : List X) → ((x : X) → d x < n) → length (gathered bucket n xs) ≡ length xs
  gathered_all n [] h = gathered_none n
  gathered_all n (x ∷ xs) h = ground (arith, length-gathered n x xs, gathered_all n xs h, h x)

append_nil : {X : Type 0} (xs : List X) → xs ++ [] ≡ xs
append_nil [] = refl
append_nil (x ∷ xs) = ap (◌∷◌ x) (append_nil xs)

-- `f` determines the digit.
module _ {X : Type 0} (d f : X → ℕ) (dig : ℕ → ℕ) (same_digit : (x : X) → d x ≡ dig (f x))
    (v : ℕ) where
  abbrev pub of_key : List X → List X
  of_key = in_bucket (bucket f) v

  of_key-append : (xs ys : List X) → of_key (xs ++ ys) ≡ of_key xs ++ of_key ys
  unfolding in_bucket
  of_key-append [] ys = refl
  of_key-append (x ∷ xs) ys = elim (ℕ_discrete (f x) v) [
    | yes same ↦
        in_bucket-hit (bucket f) v x (xs ++ ys) (ap some same)
        ∙ ap (◌∷◌ x) (of_key-append xs ys)
        ∙ ap (λ l. l ++ of_key ys) (sym (in_bucket-hit (bucket f) v x xs (ap some same)))
    | no other ↦
        let miss : bucket f x ≢ some v = λ e. other (ground (arith, e)) in
        in_bucket-miss (bucket f) v x (xs ++ ys) miss
        ∙ of_key-append xs ys
        ∙ ap (λ l. l ++ of_key ys) (sym (in_bucket-miss (bucket f) v x xs miss))
  ]

  -- The entries of a key all stand in the bucket of its digit.
  of_key-in_bucket :
      (b : ℕ) (xs : List X)
      → of_key (in_bucket (bucket d) b xs) ≡ (if dig v == b then of_key xs else [])
  unfolding in_bucket
  of_key-in_bucket b [] = ground arith
  of_key-in_bucket b (x ∷ xs) =
      let ih = of_key-in_bucket b xs in
      elim (ℕ_discrete (f x) v) [
        | yes key ↦
            let digit_v : d x ≡ dig v = same_digit x ∙ ap dig key in
            ground (arith, ih, key, digit_v)
        | no other ↦ ground (arith, ih, other)
      ]

  pub of_key-gathered :
      (n : ℕ) (xs : List X)
      → of_key (gathered (bucket d) n xs) ≡ (if ltb (dig v) n then of_key xs else [])
  unfolding in_bucket
  of_key-gathered zero xs = ground arith
  of_key-gathered (suc n) xs =
      of_key-append (gathered (bucket d) n xs) (in_bucket (bucket d) n xs)
      ∙ ap₂ ◌++◌ (of_key-gathered n xs) (of_key-in_bucket n xs)
      ∙ elim (ℕ_discrete (dig v) n) [
        | yes same ↦ ground (arith, same)
        | no other ↦ elim (dec_lt (dig v) n) [
          | yes below ↦ ground (arith, other, below, append_nil (of_key xs))
          | no above ↦ ground (arith, other, above)
        ]
      ]

module _ (key_fn : SgEntry → ℕ) (unset : ℕ → SgEntry) where
  -- A pass gathers the entries by its digit: a stable sort by that digit.
  pub radix_pass-gathered :
      (pass : ℕ) (xs : List SgEntry)
      → radix_pass key_fn unset pass xs ≡ gathered (bucket_at key_fn pass) radix_size xs
  unfolding radix_pass
  radix_pass-gathered pass xs =
      let place = bucket_at key_fn pass in
      let counts = count_buckets place xs (λ b. 0) in
      let flat = scatter place xs (offsets counts) unset in
      let whole = segment-gathered (digit key_fn pass) radix_size xs unset in
      let size : length xs ≡ offsets counts radix_size =
        sym (gathered_all (digit key_fn pass) radix_size xs (λ e. omega arith))
        ∙ sym (ap length whole)
        ∙ length-segment flat 0 (offsets counts radix_size) in
      ap (segment flat 0) size ∙ whole

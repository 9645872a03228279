-- ===== src/RadixSort/Order.antt =====
-- What radix_sort_sg does to more than 64 entries.
use gfd.Base.{
  ℕ, ◌+◌, ◌*◌, ◌/◌, ◌%◌, ◌^◌, ◌<◌, ◌≡◌, sym, ap, subst, ◌∙◌, false, arith, leb, some, List, [], ◌∷◌,
  length,
}
use gfd.Driver.{SgEntry}
use gfd.Scatter.Segments.{in_bucket}
use gfd.RadixSort.{radix_size, digit, radix_pass, radix_sort_sg}
use gfd.RadixSort.Sorted.{Sorted, AtLeast, gathered-Sorted}
use gfd.RadixSort.Passes.{of_key-gathered, radix_pass-gathered}

all_equal : {X : Type 0} (xs : List X) → AtLeast (λ (x : X). 0) 0 xs
all_equal [] = tt
all_equal (x ∷ xs) = (omega arith, all_equal xs)

unsorted : {X : Type 0} (xs : List X) → Sorted (λ (x : X). 0) xs
unsorted [] = tt
unsorted (x ∷ xs) = (all_equal xs, unsorted xs)

module _ (key_fn : SgEntry → ℕ) where
  abbrev pub low : ℕ → SgEntry → ℕ
  low w e = key_fn e % w

  -- The entries with one value of the lower 32 bits.
  abbrev pub with_low : ℕ → List SgEntry → List SgEntry
  with_low v = in_bucket (λ e. some (low (2 ^ 32) e)) v

module _ (key_fn : SgEntry → ℕ) (unset : ℕ → SgEntry) where
  pass-Sorted :
      (f g : SgEntry → ℕ) (w pass : ℕ) (xs : List SgEntry)
      → ((e : SgEntry) → g e ≡ digit key_fn pass e * w + f e)
      → ((e : SgEntry) → f e < w)
      → Sorted f xs
      → Sorted g (radix_pass key_fn unset pass xs)
  pass-Sorted f g w pass xs split small s =
      subst (Sorted g) (sym (radix_pass-gathered key_fn unset pass xs))
        (gathered-Sorted f g (digit key_fn pass) w split small radix_size xs s)

  pass-with_low :
      (pass v : ℕ) (dig : ℕ → ℕ) (xs : List SgEntry)
      → ((e : SgEntry) → digit key_fn pass e ≡ dig (low key_fn (2 ^ 32) e))
      → dig v < radix_size
      → with_low key_fn v (radix_pass key_fn unset pass xs) ≡ with_low key_fn v xs
  pass-with_low pass v dig xs same small =
      ap (with_low key_fn v) (radix_pass-gathered key_fn unset pass xs)
      ∙ of_key-gathered (digit key_fn pass) (low key_fn (2 ^ 32)) dig same v radix_size xs
      ∙ ground (arith, small)

  -- More than 64 entries are sorted by the lower 32 bits of their keys, and entries with equal lower bits
  -- keep their order: for each value the entries that have it are the same list before and after.
  pub radix_sort_sg_lem :
      (std_sort : (SgEntry → ℕ) → List SgEntry → List SgEntry) (arr : List SgEntry)
      → 64 < length arr
      → let out = radix_sort_sg key_fn std_sort unset arr in
        Sorted (low key_fn (2 ^ 32)) out × ((v : ℕ) → with_low key_fn v out ≡ with_low key_fn v arr)
  unfolding radix_sort_sg
  radix_sort_sg_lem std_sort arr many =
      let long : leb (length arr) 64 ≡ false = ground (arith, many) in
      let a1 = radix_pass key_fn unset 0 arr in
      let a2 = radix_pass key_fn unset 1 a1 in
      let a3 = radix_pass key_fn unset 2 a2 in
      let s1 =
        pass-Sorted (λ e. 0) (low key_fn (2 ^ 8)) 1 0 arr (λ e. omega arith) (λ e. omega arith)
          (unsorted arr) in
      let s2 =
        pass-Sorted (low key_fn (2 ^ 8)) (low key_fn (2 ^ 16)) (2 ^ 8) 1 a1 (λ e. omega arith)
          (λ e. omega arith) s1 in
      let s3 =
        pass-Sorted (low key_fn (2 ^ 16)) (low key_fn (2 ^ 24)) (2 ^ 16) 2 a2 (λ e. omega arith)
          (λ e. omega arith) s2 in
      let s4 =
        pass-Sorted (low key_fn (2 ^ 24)) (low key_fn (2 ^ 32)) (2 ^ 24) 3 a3 (λ e. omega arith)
          (λ e. omega arith) s3 in
      rw long (
        s4,
        λ v.
            pass-with_low 3 v (λ k. k / 2 ^ 24 % 256) a3 (λ e. omega arith) (omega arith)
            ∙ pass-with_low 2 v (λ k. k / 2 ^ 16 % 256) a2 (λ e. omega arith) (omega arith)
            ∙ pass-with_low 1 v (λ k. k / 2 ^ 8 % 256) a1 (λ e. omega arith) (omega arith)
            ∙ pass-with_low 0 v (λ k. k % 256) arr (λ e. omega arith) (omega arith),
      )

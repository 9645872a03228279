-- ===== src/Base/Slices.antt =====
-- The part of an array from one index up to another, and how chunks make up the whole.
use Prim.Native.Nat.{ℕ, zero, suc, ◌+◌, ◌-◌, ◌≤◌, min}
use mathlib.Core.Path.{◌≡◌, refl, ap}
use mathlib.Core.List.{List, [], ◌∷◌, ◌++◌}
use native.Mathlib.Omega.{arith}
use native.Mathlib.Nat.{zero-add}
use gfd.Base.Lists.{length, take, drop, take-append-drop, length-drop}

module _ {ℓ} {A : Type ℓ} where
  -- `xs[start..end)`
  abbrev pub slice : ℕ → ℕ → List A → List A
  slice start end xs = take (end - start) (drop start xs)

  pub drop-all : (n : ℕ) (xs : List A) → length xs ≤ n → drop n xs ≡ []
  drop-all zero [] h = refl
  drop-all zero (x ∷ xs) h = absurd (omega arith)
  drop-all (suc n) [] h = refl
  drop-all (suc n) (x ∷ xs) h = drop-all n xs (omega arith)

  pub take-all : (n : ℕ) (xs : List A) → length xs ≤ n → take n xs ≡ xs
  take-all zero [] h = refl
  take-all zero (x ∷ xs) h = absurd (omega arith)
  take-all (suc n) [] h = refl
  take-all (suc n) (x ∷ xs) h = ap (◌∷◌ x) (take-all n xs (omega arith))

  pub drop-drop : (k c : ℕ) (xs : List A) → drop c (drop k xs) ≡ drop (k + c) xs
  drop-drop zero c xs = rw zero-add
  drop-drop (suc k) zero [] = let e : suc k + 0 ≡ suc (k + 0) = omega arith in rw e
  drop-drop (suc k) (suc c) [] = let e : suc k + suc c ≡ suc (k + suc c) = omega arith in rw e
  drop-drop (suc k) c (x ∷ xs) =
      let e : suc k + c ≡ suc (k + c) = omega arith in rw e (drop-drop k c xs)

  take-min : (c : ℕ) (xs : List A) → take (min c (length xs)) xs ≡ take c xs
  take-min zero xs = let e : min 0 (length xs) ≡ 0 = omega arith in rw e
  take-min (suc c) [] = let e : min (suc c) 0 ≡ 0 = omega arith in rw e
  take-min (suc c) (x ∷ xs) =
      let e : min (suc c) (suc (length xs)) ≡ suc (min c (length xs)) = omega arith in
      rw e (ap (◌∷◌ x) (take-min c xs))

  -- A chunk of `c`, cut off at the end of the array, and what comes after it.
  pub slice-append-drop :
      (k c : ℕ) (xs : List A) → slice k (min (k + c) (length xs)) xs ++ drop (k + c) xs ≡ drop k xs
  slice-append-drop k c xs =
      let e : min (k + c) (length xs) - k ≡ min c (length (drop k xs)) =
        omega (arith, length-drop {ℓ} k xs) in
      rw (e, take-min c (drop k xs), ← drop-drop k c xs) (take-append-drop c (drop k xs))

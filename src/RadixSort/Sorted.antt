-- ===== src/RadixSort/Sorted.antt =====
-- Lists sorted by a key, and what a stable sort by the next digit makes of them.
use gfd.Base.{
  ℕ, zero, suc, ◌+◌, ◌*◌, ◌<◌, ◌≤◌, ◌≡◌, ◌≢◌, sym, ap, subst, ◌∙◌, arith, Option, some, List, [],
  ◌∷◌, ◌++◌, ℕ_discrete,
}
use gfd.Scatter.Segments.{in_bucket}

module _ {X : Type 0} where
  -- The buckets below `n`, one behind the other.
  abbrev pub gathered : (X → Option ℕ) → ℕ → List X → List X
  gathered bucket zero xs = []
  gathered bucket (suc n) xs = gathered bucket n xs ++ in_bucket bucket n xs

  abbrev pub AtLeast : (X → ℕ) → ℕ → List X → Type 0
  AtLeast f n [] = Unit {0}
  AtLeast f n (x ∷ xs) = (n ≤ f x) × AtLeast f n xs

  abbrev pub Below : (X → ℕ) → ℕ → List X → Type 0
  Below f n [] = Unit {0}
  Below f n (x ∷ xs) = (f x < n) × Below f n xs

  -- Each entry is followed by none with a smaller key.
  abbrev pub Sorted : (X → ℕ) → List X → Type 0
  Sorted f [] = Unit {0}
  Sorted f (x ∷ xs) = AtLeast f (f x) xs × Sorted f xs

  AtLeast-mono : (f : X → ℕ) (m n : ℕ) (xs : List X) → m ≤ n → AtLeast f n xs → AtLeast f m xs
  AtLeast-mono f m n [] h a = tt
  AtLeast-mono f m n (x ∷ xs) h a = (omega (arith, h, a.0), AtLeast-mono f m n xs h a.1)

  Below-mono : (f : X → ℕ) (m n : ℕ) (xs : List X) → m ≤ n → Below f m xs → Below f n xs
  Below-mono f m n [] h a = tt
  Below-mono f m n (x ∷ xs) h a = (omega (arith, h, a.0), Below-mono f m n xs h a.1)

  AtLeast-append :
      (f : X → ℕ) (n : ℕ) (xs ys : List X)
      → AtLeast f n xs
      → AtLeast f n ys
      → AtLeast f n (xs ++ ys)
  AtLeast-append f n [] ys a b = b
  AtLeast-append f n (x ∷ xs) ys a b = (a.0, AtLeast-append f n xs ys a.1 b)

  Below-append :
      (f : X → ℕ) (n : ℕ) (xs ys : List X) → Below f n xs → Below f n ys → Below f n (xs ++ ys)
  Below-append f n [] ys a b = b
  Below-append f n (x ∷ xs) ys a b = (a.0, Below-append f n xs ys a.1 b)

  Sorted-append :
      (f : X → ℕ) (m : ℕ) (xs ys : List X)
      → Sorted f xs
      → Sorted f ys
      → Below f m xs
      → AtLeast f m ys
      → Sorted f (xs ++ ys)
  Sorted-append f m [] ys s t b a = t
  Sorted-append f m (x ∷ xs) ys s t b a = (
    AtLeast-append f (f x) xs ys s.0 (AtLeast-mono f (f x) m ys (omega (arith, b.0)) a),
    Sorted-append f m xs ys s.1 t b.1 a,
  )

-- `g` is the key with one digit more than `f`.
module _ {X : Type 0} (f g d : X → ℕ) (w : ℕ) (split : (x : X) → g x ≡ d x * w + f x)
    (low : (x : X) → f x < w) where
  abbrev by_digit : X → Option ℕ
  by_digit x = some (d x)

  bucket-hit :
      (b : ℕ) (x : X) (xs : List X)
      → d x ≡ b
      → in_bucket by_digit b (x ∷ xs) ≡ x ∷ in_bucket by_digit b xs
  unfolding in_bucket
  bucket-hit b x xs same = ground (arith, same)

  bucket-miss :
      (b : ℕ) (x : X) (xs : List X)
      → d x ≢ b
      → in_bucket by_digit b (x ∷ xs) ≡ in_bucket by_digit b xs
  unfolding in_bucket
  bucket-miss b x xs other = ground (arith, other)

  bucket-AtLeast :
      (b n : ℕ) (xs : List X) → AtLeast f n xs → AtLeast g (b * w + n) (in_bucket by_digit b xs)
  unfolding in_bucket
  bucket-AtLeast b n [] a = tt
  bucket-AtLeast b n (x ∷ xs) a =
      let rest = bucket-AtLeast b n xs a.1 in
      elim (ℕ_discrete (d x) b) [
        | yes same ↦
            subst (AtLeast g (b * w + n)) (sym (bucket-hit b x xs same))
              (omega (arith, split x, ap (λ k. k * w) same, a.0), rest)
        | no other ↦ subst (AtLeast g (b * w + n)) (sym (bucket-miss b x xs other)) rest
      ]

  bucket-Below : (b : ℕ) (xs : List X) → Below g (b * w + w) (in_bucket by_digit b xs)
  unfolding in_bucket
  bucket-Below b [] = tt
  bucket-Below b (x ∷ xs) =
      let rest = bucket-Below b xs in
      elim (ℕ_discrete (d x) b) [
        | yes same ↦
            subst (Below g (b * w + w)) (sym (bucket-hit b x xs same))
              (omega (arith, split x, ap (λ k. k * w) same, low x), rest)
        | no other ↦ subst (Below g (b * w + w)) (sym (bucket-miss b x xs other)) rest
      ]

  bucket-Sorted : (b : ℕ) (xs : List X) → Sorted f xs → Sorted g (in_bucket by_digit b xs)
  unfolding in_bucket
  bucket-Sorted b [] s = tt
  bucket-Sorted b (x ∷ xs) s =
      let rest = bucket-Sorted b xs s.1 in
      elim (ℕ_discrete (d x) b) [
        | yes same ↦
            let key : g x ≡ b * w + f x = split x ∙ ap (λ k. k * w + f x) same in
            subst (Sorted g) (sym (bucket-hit b x xs same)) (
              subst (λ n. AtLeast g n (in_bucket by_digit b xs)) (sym key)
                  (bucket-AtLeast b (f x) xs s.0),
              rest,
            )
        | no other ↦ subst (Sorted g) (sym (bucket-miss b x xs other)) rest
      ]

  gathered-Below : (n : ℕ) (xs : List X) → Below g (n * w) (gathered by_digit n xs)
  gathered-Below zero xs = tt
  gathered-Below (suc n) xs =
      Below-append g (suc n * w) (gathered by_digit n xs) (in_bucket by_digit n xs)
        (Below-mono g (n * w) (suc n * w) (gathered by_digit n xs) (omega arith)
          (gathered-Below n xs))
        (Below-mono g (n * w + w) (suc n * w) (in_bucket by_digit n xs) (omega arith)
          (bucket-Below n xs))

  AtLeast-zero : (xs : List X) → AtLeast f 0 xs
  AtLeast-zero [] = tt
  AtLeast-zero (x ∷ xs) = (omega arith, AtLeast-zero xs)

  -- A list sorted by the lower digits, gathered by the next digit, is sorted by both.
  pub gathered-Sorted : (n : ℕ) (xs : List X) → Sorted f xs → Sorted g (gathered by_digit n xs)
  gathered-Sorted zero xs s = tt
  gathered-Sorted (suc n) xs s =
      Sorted-append g (n * w) (gathered by_digit n xs) (in_bucket by_digit n xs)
        (gathered-Sorted n xs s) (bucket-Sorted n xs s) (gathered-Below n xs)
        (subst (λ m. AtLeast g m (in_bucket by_digit n xs)) add-zero_of
          (bucket-AtLeast n 0 xs (AtLeast-zero xs)))
    where
      add-zero_of : n * w + 0 ≡ n * w
      add-zero_of = omega arith

-- ===== src/Scatter/Segments.antt =====
-- After the scatter the part of the array that belongs to a bucket holds the items of that bucket, in
-- their order.
use gfd.Base.{
  ℕ, zero, suc, ◌+◌, ◌<◌, ◌≡◌, ◌≢◌, refl, sym, ap, ap₂, ◌∙◌, Bool, false, arith, ◌==◌,
  if◌then◌else◌, Option, none, some, update, update_self, update_ne, List, [], ◌∷◌, length,
  ℕ_discrete, inl, inr, Option-cases,
}
use gfd.Scatter.{scatter}

-- The `n` items from `from` on.
abbrev pub segment : {X : Type 0} → (ℕ → X) → ℕ → ℕ → List X
segment out from zero = []
segment out from (suc n) = out from ∷ segment out (from + 1) n

module _ {X : Type 0} (bucket : X → Option ℕ) where
  abbrev pub is_in : ℕ → X → Bool
  is_in b x = elim (bucket x) [ none ↦ false | some c ↦ c == b ]

  -- The items of a bucket, in order.
  unfoldable pub in_bucket : ℕ → List X → List X
  in_bucket b [] = []
  in_bucket b (x ∷ xs) = let rest = in_bucket b xs in if is_in b x then x ∷ rest else rest

  abbrev pub size_of : ℕ → List X → ℕ
  size_of b xs = length (in_bucket b xs)

  -- The places still to be filled for two buckets are different.
  abbrev pub Apart : (ℕ → ℕ) → List X → Type 0
  Apart pos xs = (b c i j : ℕ) → b ≢ c → i < size_of b xs → j < size_of c xs → pos b + i ≢ pos c + j

  abbrev pub moved : (ℕ → ℕ) → ℕ → ℕ → ℕ
  moved pos c = update pos c (pos c + 1)

  pub in_bucket-hit :
      (b : ℕ) (x : X) (xs : List X) → bucket x ≡ some b → in_bucket b (x ∷ xs) ≡ x ∷ in_bucket b xs
  unfolding in_bucket
  in_bucket-hit b x xs h = ground (arith, h)

  pub in_bucket-miss :
      (b : ℕ) (x : X) (xs : List X) → bucket x ≢ some b → in_bucket b (x ∷ xs) ≡ in_bucket b xs
  unfolding in_bucket
  in_bucket-miss b x xs h = elim (Option-cases (bucket x)) [
    | inl e ↦ ground (arith, e)
    | inr (c, e) ↦ let other : c ≢ b = λ same. h (e ∙ ap some same) in ground (arith, e, other)
  ]

  pub size_of-hit :
      (b : ℕ) (x : X) (xs : List X) → bucket x ≡ some b → size_of b (x ∷ xs) ≡ suc (size_of b xs)
  size_of-hit b x xs h = ap length (in_bucket-hit b x xs h)

  scatter-none :
      (x : X) (xs : List X) (pos : ℕ → ℕ) (out : ℕ → X)
      → bucket x ≡ none
      → scatter bucket (x ∷ xs) pos out ≡ scatter bucket xs pos out
  unfolding scatter
  scatter-none x xs pos out h = rw h refl

  scatter-some :
      (c : ℕ) (x : X) (xs : List X) (pos : ℕ → ℕ) (out : ℕ → X)
      → bucket x ≡ some c
      → scatter bucket (x ∷ xs) pos out ≡ scatter bucket xs (moved pos c) (update out (pos c) x)
  unfolding scatter
  scatter-some c x xs pos out h = rw h refl

  -- A place still to be filled after an item was one before it.
  moved_place :
      (c b i : ℕ) (x : X) (xs : List X) (pos : ℕ → ℕ)
      → bucket x ≡ some c
      → i < size_of b xs
      → (i' : ℕ) × (i' < size_of b (x ∷ xs)) × (moved pos c b + i ≡ pos b + i')
  moved_place c b i x xs pos h lt = elim (ℕ_discrete b c) [
    | yes same ↦ (
      i + 1,
      rw (same, size_of-hit c x xs h) (omega (arith, lt, ap (λ k. size_of k xs) same)),
      rw (same, update_self pos c (pos c + 1)) (omega arith),
    )
    | no other ↦
        let miss : bucket x ≢ some b = λ e. other (ground (arith, h, e)) in
        (
          i,
          rw (in_bucket-miss b x xs miss) lt,
          ap (λ n. n + i) (update_ne pos c b (pos c + 1) (λ e. other (sym e))),
        )
  ]

  Apart-none :
      (x : X) (xs : List X) (pos : ℕ → ℕ) → bucket x ≡ none → Apart pos (x ∷ xs) → Apart pos xs
  Apart-none x xs pos h apart b c i j ne li lj =
      let miss : (k : ℕ) → bucket x ≢ some k = λ k e. ground (arith, h, e) in
      apart b c i j ne (rw (in_bucket-miss b x xs (miss b)) li)
        (rw (in_bucket-miss c x xs (miss c)) lj)

  Apart-some :
      (d : ℕ) (x : X) (xs : List X) (pos : ℕ → ℕ)
      → bucket x ≡ some d
      → Apart pos (x ∷ xs)
      → Apart (moved pos d) xs
  Apart-some d x xs pos h apart b c i j ne li lj e =
      let p = moved_place d b i x xs pos h li in
      let q = moved_place d c j x xs pos h lj in apart b c p.0 q.0 ne p.1 q.1 (sym p.2 ∙ e ∙ q.2)

  -- A place of no bucket is left alone.
  scatter-other :
      (xs : List X) (pos : ℕ → ℕ) (out : ℕ → X) (q : ℕ)
      → ((b i : ℕ) → i < size_of b xs → pos b + i ≢ q)
      → scatter bucket xs pos out q ≡ out q
  unfolding scatter
  scatter-other [] pos out q h = refl
  scatter-other (x ∷ xs) pos out q h = elim (Option-cases (bucket x)) [
    | inl e ↦
        let miss : (k : ℕ) → bucket x ≢ some k = λ k f. ground (arith, e, f) in
        ap (λ o. o q) (scatter-none x xs pos out e)
        ∙ scatter-other xs pos out q (λ b i lt. h b i (rw (in_bucket-miss b x xs (miss b)) lt))
    | inr (c, e) ↦
        let first : pos c ≢ q =
          λ same. h c 0 (rw (size_of-hit c x xs e) (omega arith)) (omega (arith, same)) in
        ap (λ o. o q) (scatter-some c x xs pos out e)
        ∙ scatter-other xs (moved pos c) (update out (pos c) x) q
            (λ b i lt f. let p = moved_place c b i x xs pos e lt in h b p.0 p.1 (sym p.2 ∙ f))
        ∙ update_ne out (pos c) q x first
  ]

  segment-cong :
      (out out' : ℕ → X) (from from' n n' : ℕ)
      → out ≡ out'
      → from ≡ from'
      → n ≡ n'
      → segment out from n ≡ segment out' from' n'
  segment-cong out out' from from' n n' e f g = rw (e, f, g) refl

  -- The first item of a bucket stays where it is put.
  scatter-first :
      (b : ℕ) (x : X) (xs : List X) (pos : ℕ → ℕ) (out : ℕ → X)
      → bucket x ≡ some b
      → Apart pos (x ∷ xs)
      → scatter bucket xs (moved pos b) (update out (pos b) x) (pos b) ≡ x
  scatter-first b x xs pos out hit apart =
      scatter-other xs (moved pos b) (update out (pos b) x) (pos b) (λ k i lt f.
        elim (ℕ_discrete k b) [
          | yes same ↦
              let up : moved pos b k ≡ pos b + 1 =
                ap (moved pos b) same ∙ update_self pos b (pos b + 1) in
              absurd (omega (arith, f, up))
          | no other ↦
              let p = moved_place b k i x xs pos hit lt in
              apart k b p.0 0 other p.1 (rw (size_of-hit b x xs hit) (omega arith))
                (omega (arith, p.2, f))
        ])
      ∙ update_self out (pos b) x

  -- The part of the array that belongs to a bucket holds the bucket's items, in their order, if the parts
  -- of different buckets do not overlap.
  pub scatter-segment :
      (xs : List X) (pos : ℕ → ℕ) (out : ℕ → X) (b : ℕ)
      → Apart pos xs
      → segment (scatter bucket xs pos out) (pos b) (size_of b xs) ≡ in_bucket b xs
  unfolding in_bucket
  scatter-segment [] pos out b apart = refl
  scatter-segment (x ∷ xs) pos out b apart = elim (Option-cases (bucket x)) [
    | inl e ↦
        let miss : bucket x ≢ some b = λ f. ground (arith, e, f) in
        segment-cong (scatter bucket (x ∷ xs) pos out) (scatter bucket xs pos out) (pos b) (pos b)
          (size_of b (x ∷ xs)) (size_of b xs) (scatter-none x xs pos out e) refl
          (ap length (in_bucket-miss b x xs miss))
        ∙ scatter-segment xs pos out b (Apart-none x xs pos e apart)
        ∙ sym (in_bucket-miss b x xs miss)
    | inr (c, e) ↦
        let pos' = moved pos c in
        let out' = update out (pos c) x in
        let result = scatter bucket xs pos' out' in
        let ih = scatter-segment xs pos' out' b (Apart-some c x xs pos e apart) in
        elim (ℕ_discrete b c) [
          | yes same ↦
              let hit : bucket x ≡ some b = e ∙ ap some (sym same) in
              let r = scatter bucket xs (moved pos b) (update out (pos b) x) in
              let rest =
                scatter-segment xs (moved pos b) (update out (pos b) x) b
                  (Apart-some b x xs pos hit apart) in
              segment-cong (scatter bucket (x ∷ xs) pos out) r (pos b) (pos b) (size_of b (x ∷ xs))
                (suc (size_of b xs)) (scatter-some b x xs pos out hit) refl (size_of-hit b x xs hit)
              ∙ ap₂ ◌∷◌ (scatter-first b x xs pos out hit apart) (
                  segment-cong r r (pos b + 1) (moved pos b b) (size_of b xs) (size_of b xs) refl
                    (sym (update_self pos b (pos b + 1))) refl
                  ∙ rest)
              ∙ sym (in_bucket-hit b x xs hit)
          | no other ↦
              let miss : bucket x ≢ some b = λ f. other (ground (arith, e, f)) in
              segment-cong (scatter bucket (x ∷ xs) pos out) result (pos b) (pos' b)
                (size_of b (x ∷ xs)) (size_of b xs) (scatter-some c x xs pos out e)
                (sym (update_ne pos c b (pos c + 1) (λ f. other (sym f))))
                (ap length (in_bucket-miss b x xs miss))
              ∙ ih
              ∙ sym (in_bucket-miss b x xs miss)
        ]
  ]

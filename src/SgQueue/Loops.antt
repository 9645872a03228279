-- ===== src/SgQueue/Loops.antt =====
-- The host's loop over the entries of a list, and the warp's, leave the same array.
use gfd.Base.{
  ℕ, zero, suc, ◌+◌, ◌<◌, ◌≤◌, ◌≡◌, ◌≢◌, refl, ap, ◌∙◌, arith, update, update_self, update_ne,
  for_range, ℕ_discrete,
}

module _ {A : Type 0} (key : ℕ → ℕ) (value : ℕ → A) where
  abbrev store : ℕ → (ℕ → A) → ℕ → A
  store i m = update m (key i) (value i)

  pub for_range-other :
      (n from p : ℕ) (m : ℕ → A)
      → ((i : ℕ) → from ≤ i → i < from + n → key i ≢ p)
      → for_range n from store m p ≡ m p
  unfolding for_range
  for_range-other zero from p m h = refl
  for_range-other (suc n) from p m h =
      for_range-other n (from + 1) p (store from m) (λ i le lt. h i (omega arith) (omega arith))
      ∙ update_ne m (key from) p (value from) (h from (omega arith) (omega arith))

  pub for_range-at :
      (n from j : ℕ) (m : ℕ → A)
      → from ≤ j
      → j < from + n
      → ((i : ℕ) → from ≤ i → i < from + n → key i ≡ key j → i ≡ j)
      → for_range n from store m (key j) ≡ value j
  unfolding for_range
  for_range-at zero from j m le lt only = absurd (omega arith)
  for_range-at (suc n) from j m le lt only = elim (ℕ_discrete from j) [
    | yes same ↦
        for_range-other n (from + 1) (key j) (store from m)
          (λ i le' lt' e. absurd (omega (arith, only i (omega arith) (omega arith) e, same)))
        ∙ ap (λ k. store k m (key j)) same
        ∙ update_self m (key j) (value j)
    | no other ↦
        for_range-at n (from + 1) j (store from m) (omega (arith, other)) (omega arith)
          (λ i le' lt' e. only i (omega arith) (omega arith) e)
  ]

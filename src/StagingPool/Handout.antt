-- ===== src/StagingPool/Handout.antt =====
-- Which set a caller is given, and which it is not.
use gfd.Base.{
  ℕ, zero, suc, ◌+◌, ◌<◌, ◌≤◌, ◌≡◌, ◌≢◌, subst, refl, sym, ap, ◌∙◌, arith, true, false, leb, ◌&&◌,
  not, none, some, update, Bool-cases, inl, inr, ◌⊎◌, ℕ_discrete,
}
use gfd.StagingPool.{Pool, acquire_from, acquire_buffers, release_buffers, init}

-- A set that may be handed out for `required_size` bytes.
abbrev pub IsFree : Pool → ℕ → ℕ → Type 0
IsFree pool required_size s =
    ((pool.sets s).in_use ≡ false) × (required_size ≤ (pool.sets s).buf_size)

abbrev pub taken : Pool → ℕ → Pool
taken pool s = record pool { sets = update pool.sets s (record (pool.sets s) { in_use = true }) }

acquire_from-first :
    (n s required_size : ℕ) (pool : Pool)
    → ((acquire_from n s required_size pool ≡ (none, pool))
        × ((i : ℕ) → s ≤ i → i < s + n → ¬ IsFree pool required_size i))
      ⊎ ((i : ℕ) × (acquire_from n s required_size pool ≡ (some i, taken pool i))
          × (s ≤ i)
          × (i < s + n)
          × IsFree pool required_size i
          × ((j : ℕ) → s ≤ j → j < i → ¬ IsFree pool required_size j))
unfolding acquire_from
acquire_from-first zero s required_size pool = inl (refl, λ i le lt. absurd (omega arith))
acquire_from-first (suc n) s required_size pool =
    elim (Bool-cases (not (pool.sets s).in_use && leb required_size (pool.sets s).buf_size)) [
      | inl free ↦ inr (
        s,
        rw free refl,
        omega arith,
        omega arith,
        (ground (arith, free), ground (arith, free)),
        λ j le lt. absurd (omega arith),
      )
      | inr busy ↦
          let here : ¬ IsFree pool required_size s = λ f. ground (arith, busy, f) in
          elim (acquire_from-first n (s + 1) required_size pool) [
            | inl (e, h) ↦ inl (
              rw busy e,
              λ i le lt f. elim (ℕ_discrete i s) [
                | yes same ↦ here (subst (IsFree pool required_size) same f)
                | no other ↦ h i (omega arith) (omega arith) f
              ],
            )
            | inr (i, e, le, lt, f, h) ↦ inr (
              i,
              rw busy e,
              omega arith,
              omega arith,
              f,
              λ j lej ltj g. elim (ℕ_discrete j s) [
                | yes same ↦ here (subst (IsFree pool required_size) same g)
                | no other ↦ h j (omega arith) ltj g
              ],
            )
          ]
    ]

-- An initialised pool hands out the first set that is not in use and is large enough, marks it, and
-- changes no other set; it refuses only if there is no such set, and changes nothing then.
pub acquire_buffers_lem :
    (required_size : ℕ) (pool : Pool)
    → pool.initialized ≡ true
    → ((acquire_buffers required_size pool ≡ (none, pool))
        × ((i : ℕ) → i < pool.num_sets → ¬ IsFree pool required_size i))
      ⊎ ((i : ℕ) × (acquire_buffers required_size pool ≡ (some i, taken pool i))
          × (i < pool.num_sets)
          × IsFree pool required_size i
          × ((j : ℕ) → j < i → ¬ IsFree pool required_size j))
unfolding acquire_buffers
acquire_buffers_lem required_size pool init =
    elim (acquire_from-first pool.num_sets 0 required_size pool) [
      | inl (e, h) ↦ inl (ground (arith, init, e), λ i lt. h i (omega arith) (omega arith))
      | inr (i, e, le, lt, f, h) ↦
          inr (i, ground (arith, init, e), omega arith, f, λ j ltj. h j (omega arith) ltj)
    ]

-- After a set has been handed out, no request is given the same set, as long as it is not released.
pub not_handed_out_twice :
    (first second : ℕ) (pool : Pool) (i j : ℕ)
    → pool.initialized ≡ true
    → (acquire_buffers first pool).0 ≡ some i
    → (acquire_buffers second (acquire_buffers first pool).1).0 ≡ some j
    → i ≢ j
not_handed_out_twice first second pool i j init a b same =
    elim (acquire_buffers_lem first pool init) [
      | inl (e, h) ↦ absurd (ground (arith, a, e))
      | inr (k, e, lt, f, h) ↦
          let mine : k ≡ i = ground (arith, a, e) in
          let next : (acquire_buffers second (taken pool k)).0 ≡ some j =
            ap (λ r. (acquire_buffers second r.1).0) (sym e) ∙ b in
          elim (acquire_buffers_lem second (taken pool k) init) [
            | inl (e', h') ↦ absurd (ground (arith, next, e'))
            | inr (l, e', lt', f', h') ↦
                let other : l ≡ j = ground (arith, next, e') in
                ground (arith, f'.0, mine, other, same)
          ]
    ]

-- A set that is released, by the holder that acquired it, leaves the pool as it was before.
pub release_buffers-acquire_buffers :
    (required_size : ℕ) (pool : Pool) (i s : ℕ)
    → pool.initialized ≡ true
    → (acquire_buffers required_size pool).0 ≡ some i
    → let pool' = release_buffers (some i) (acquire_buffers required_size pool).1 in
      (pool'.sets s ≡ pool.sets s)
      × (pool'.num_sets ≡ pool.num_sets)
      × (pool'.initialized ≡ pool.initialized)
      × (pool'.buf_size ≡ pool.buf_size)
unfolding release_buffers
release_buffers-acquire_buffers required_size pool i s init a =
    elim (acquire_buffers_lem required_size pool init) [
      | inl (e, h) ↦ absurd (ground (arith, a, e))
      | inr (k, e, lt, f, h) ↦
          let mine : k ≡ i = ground (arith, a, e) in
          rw (← mine) (
            rw e
              (ground (arith, lt, f), ground (arith, lt), ground (arith, lt), ground (arith, lt)))
    ]

-- ===== src/Session/ChunkSize.antt =====
-- The automatic chunk size.
use gfd.Base.{
  ℕ, zero, suc, ◌*◌, ◌/◌, ◌^◌, ◌<◌, ◌≤◌, ◌≡◌, refl, sym, subst, ap, ◌∙◌, false, arith, dec_le,
}
use gfd.Queue.{mul32}
use native.Mathlib.Nat.{pow-suc, pow-succ', div-le_self}
use gfd.Session.{
  WarpSpecConfig, round_down, target_chunk_bytes, auto_chunk, effective_tokens_per_chunk,
}

abbrev pub IsPowerOfTwo : ℕ → Type 0
IsPowerOfTwo p = (k : ℕ) × (p ≡ 2 ^ k)

-- `r` is the largest power of two that is not above `n`.
abbrev IsFloor : ℕ → ℕ → Type 0
IsFloor n r = IsPowerOfTwo r × (r ≤ n) × (n < 2 * r)

round_down-IsFloor :
    (f p n : ℕ) → IsPowerOfTwo p → p ≤ n → n < 2 ^ 31 → n < p * 2 ^ f → IsFloor n (round_down f p n)
unfolding round_down
round_down-IsFloor zero p n power low small high = absurd (omega arith)
round_down-IsFloor (suc f) p n power low small high =
    let double : mul32 p 2 ≡ p * 2 = omega (arith, low, small) in
    let high' : n < p * (2 * 2 ^ f) = rw (pow-succ' 2 f) at high in
    elim (dec_le (p * 2) n) [
      | yes more ↦
          let next : IsPowerOfTwo (p * 2) =
            (suc power.0, ap (λ x. x * 2) power.1 ∙ sym (pow-suc 2 power.0)) in
          let same : round_down (suc f) p n ≡ round_down f (p * 2) n =
            ground (arith, double, more) in
          subst (IsFloor n) (sym same)
            (round_down-IsFloor f (p * 2) n next more small (omega (arith, high')))
      | no last ↦
          let same : round_down (suc f) p n ≡ p = ground (arith, double, last) in
          subst (IsFloor n) (sym same) (power, low, omega arith)
    ]

module _ (config : WarpSpecConfig) where
  auto_chunk_bounds :
      0 < config.tokens_per_tile
      → config.tokens_per_tile < 2 ^ 32
      → (0 < auto_chunk config)
        × (auto_chunk config ≤ config.tokens_per_tile)
        × (config.tokens_per_tile / 8 ≤ auto_chunk config)
        × (auto_chunk config < 2 ^ 31)
  unfolding auto_chunk
  auto_chunk_bounds some small =
      let t : target_chunk_bytes config ≤ 2 ^ 18 = ground arith in
      let q : target_chunk_bytes config / config.token_size ≤ target_chunk_bytes config =
        div-le_self (target_chunk_bytes config) config.token_size in
      (ground (arith, q, t), ground (arith, q, t), ground (arith, q, t), ground (arith, q, t))

  -- Left to itself, the session takes chunks of a power of two of tokens, at most a tile, and at most 15
  -- of them fit in a tile.
  pub effective_tokens_per_chunk_lem :
      config.per_tile_mode ≡ false
      → config.tokens_per_chunk ≡ 0
      → 0 < config.tokens_per_tile
      → config.tokens_per_tile < 2 ^ 32
      → let chunk = effective_tokens_per_chunk config in
        IsPowerOfTwo chunk
        × (chunk ≤ config.tokens_per_tile)
        × (config.tokens_per_tile < 16 * chunk)
  unfolding effective_tokens_per_chunk
  effective_tokens_per_chunk_lem auto none some small =
      let b = auto_chunk_bounds some small in
      let r = round_down-IsFloor 32 1 (auto_chunk config) (0, refl) b.0 b.3 (omega (arith, b.3)) in
      let same : effective_tokens_per_chunk config ≡ round_down 32 1 (auto_chunk config) =
        ground (arith, auto, none) in
      rw same (r.0, omega (arith, r.1, b.1), omega (arith, r.2, b.2))

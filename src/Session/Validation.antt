-- ===== src/Session/Validation.antt =====
-- What the constructor guarantees of a queue that it allocates, and what a reset leaves.
use gfd.Base.{
  ℕ, ◌+◌, ◌*◌, ◌/◌, ◌%◌, ◌<◌, ◌≤◌, ◌≡◌, refl, Bool, true, false, arith, some, Bool-cases, inl, inr,
}
use native.Mathlib.Nat.{div-add-mod, mod-lt}
use gfd.Tiled.{TiledQueue, acquire_tile, wait_chunk_done}
use gfd.Session.{
  WarpSpecConfig, accepted, new_queue, reset_queue, total_tiles, chunks_per_tile,
  effective_tokens_per_chunk,
}

module _ (config : WarpSpecConfig) where
  accepted_facts :
      accepted config ≡ true
      → (0 < effective_tokens_per_chunk config)
        × (0 < config.tokens_per_tile)
        × (config.tokens_per_tile % effective_tokens_per_chunk config ≡ 0)
  unfolding accepted
  accepted_facts ok = (ground (arith, ok), ground (arith, ok), ground (arith, ok))

  -- The constructor allocates a queue only where a tile is a whole number of chunks that are not empty,
  -- and its tiles are as many as fit in the tokens: fewer than a tile's tokens are left over.
  pub new_queue_lem :
      (d_signal : Bool) (tq : TiledQueue)
      → new_queue config d_signal ≡ some tq
      → let s = tq.scheduler in
        (0 < s.tokens_per_chunk)
        × (s.chunks_per_tile * s.tokens_per_chunk ≡ s.tokens_per_tile)
        × (s.total_tiles * s.tokens_per_tile ≤ config.total_tokens)
        × (config.total_tokens < s.total_tiles * s.tokens_per_tile + s.tokens_per_tile)
        × (s.next_tile ≡ 0)
        × (s.token_size ≡ config.token_size)
  unfolding new_queue total_tiles chunks_per_tile
  new_queue_lem d_signal tq h = elim (Bool-cases (accepted config)) [
    | inl ok ↦
        let C = effective_tokens_per_chunk config in
        let T = config.tokens_per_tile in
        let chunk : tq.scheduler.tokens_per_chunk ≡ C = ground (arith, h, ok) in
        let tile : tq.scheduler.tokens_per_tile ≡ T = ground (arith, h, ok) in
        let chunks : tq.scheduler.chunks_per_tile ≡ T / C = ground (arith, h, ok) in
        let tiles : tq.scheduler.total_tiles ≡ config.total_tokens / T = ground (arith, h, ok) in
        let f = accepted_facts ok in
        let left : config.total_tokens % T < T = mod-lt config.total_tokens f.1 in
        let d1 : C * (T / C) + T % C ≡ T = div-add-mod T C in
        let d2 : T * (config.total_tokens / T) + config.total_tokens % T ≡ config.total_tokens =
          div-add-mod config.total_tokens T in
        rw (chunk, tile, chunks, tiles)
          (
            f.0,
            omega (arith, d1, f.2),
            omega (arith, d2),
            omega (arith, d2, left),
            ground (arith, h, ok),
            ground (arith, h, ok),
          )
    | inr bad ↦ absurd (ground (arith, h, bad))
  ]

-- After a reset the tiles are handed out from 0 again, with no chunk of any tile counted as done, on the
-- host or on the device; the sizes and the ring stay as they were.
pub reset_queue_lem :
    (tq : TiledQueue) (t : ℕ)
    → let tq' = reset_queue tq in
      ((acquire_tile tq').0 ≡ 0)
      × (tq'.tile_chunk_done t ≡ 0)
      × (wait_chunk_done tq' t 0 ≡ true)
      × ((n : ℕ) → wait_chunk_done tq' t (n + 1) ≡ false)
      × (tq'.base ≡ tq.base)
      × (tq'.scheduler.total_tiles ≡ tq.scheduler.total_tiles)
      × (tq'.scheduler.tokens_per_chunk ≡ tq.scheduler.tokens_per_chunk)
unfolding reset_queue acquire_tile wait_chunk_done
reset_queue_lem tq t = (refl, refl, ground arith, λ n. ground arith, refl, refl, refl)

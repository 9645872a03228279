-- ===== src/Tiled/Equivalence.antt =====
-- A tile submitted at once, against its chunks submitted one by one.
use native.Mathlib.Nat.{add-zero, zero-add}
use gfd.Base.{
  ℕ, zero, suc, ◌+◌, ◌-◌, ◌*◌, ◌/◌, ◌%◌, ◌^◌, ◌<◌, ◌≤◌, ◌≡◌, ◌≢◌, refl, sym, ap, ◌∙◌, arith,
  for_range, ◌==◌, Bool, true, false, ◌&&◌, if◌then◌else◌, dec_lt,
}
use gfd.Queue.{
  bit_or, flag_none, flag_last_in_tile, flag_last_chunk_in_tile, Descriptor, queue_size, add64,
  add32, mul32,
}
use gfd.Tiled.{
  TiledQueue, chunk_entry, tile_entry, with_sequence, slot_place, submit_chunk, submit_tile,
  write_chunk,
}
use gfd.Tiled.Chunks.{slot_place-inj, submitted, submitted_at, submitted_other}

in_tile : (c i C K : ℕ) → i < C → c < K → c * C + i < K * C
in_tile c i C K hi hc = grind arith

mod_of_chunk : (c i C : ℕ) → i < C → (c * C + i) % C ≡ i
mod_of_chunk c i C h = grind arith

below : (j n C K : ℕ) → n ≤ K → j < n * C → j < K * C
below j n C K h hj = grind arith

div_of_tile : (K C : ℕ) → 0 < C → (K * C) / C ≡ K
div_of_tile K C h = grind arith

last_in_chunk : (c i C K : ℕ) → i < C → c < K → c * C + i + 1 ≡ K * C → i + 1 ≡ C
last_in_chunk c i C K hi hc e = elim (dec_lt (i + 1) C) [
  | yes h ↦ absurd (omega (arith, in_tile c (i + 1) C K h hc))
  | no h ↦ omega arith
]

last_chunk : (c i C K : ℕ) → i < C → c < K → c * C + i + 1 ≡ K * C → c + 1 ≡ K
last_chunk c i C K hi hc e = elim (dec_lt (c + 1) K) [
  | yes h ↦ absurd (omega (arith, in_tile (c + 1) 0 C K (omega arith) h))
  | no h ↦ omega arith
]

last_token : (c i C K : ℕ) → i + 1 ≡ C → c + 1 ≡ K → c * C + i + 1 ≡ K * C
last_token c i C K hi hc = rw (← hc) (omega arith)

-- The tests that set a token's flags in a tile and in its chunk.
last_tests :
    (c i C K : ℕ)
    → i < C
    → c < K
    → (c * C + i + 1 == K * C) ≡ ((i + 1 == C) && (c + 1 == K * C / C))
last_tests c i C K hi hc = ground (
  arith,
  div_of_tile K C,
  last_in_chunk c i C K hi hc,
  last_chunk c i C K hi hc,
  last_token c i C K,
)

flags-eq :
    (a b : Bool)
    → (if a && b
        then bit_or
            (if a then bit_or flag_none flag_last_in_tile else flag_none)
            flag_last_chunk_in_tile
        else (if a then bit_or flag_none flag_last_in_tile else flag_none))
      ≡ (if a && b
          then bit_or (if a then flag_last_in_tile else flag_none) flag_last_chunk_in_tile
          else (if a then flag_last_in_tile else flag_none))
flags-eq true true = refl
flags-eq true false = refl
flags-eq false b = refl

-- The descriptor of a tile's token is that of the token in its chunk.
tile_entry-eq-chunk_entry :
    (tile_id K C c i cpu_base gpu_base token_size : ℕ) (d : Descriptor)
    → i < C
    → c < K
    → tile_id * (K * C) + K * C < 2 ^ 32
    → tile_entry tile_id (K * C) C cpu_base gpu_base token_size (c * C + i) d
      ≡ chunk_entry tile_id c C (K * C) cpu_base gpu_base token_size i d
unfolding tile_entry chunk_entry
tile_entry-eq-chunk_entry tile_id K C c i cpu_base gpu_base token_size d hi hc ht =
    let inside = in_tile c i C K hi hc in
    let token : add32 (mul32 tile_id (K * C)) (add32 (mul32 c C) i)
        ≡ add32 (mul32 tile_id (K * C)) (c * C + i) =
      omega arith in
    rw (
      token,
      mod_of_chunk c i C hi,
      last_tests c i C K hi hc,
      flags-eq (i + 1 == C) (c + 1 == K * C / C),
    )

-- The chunks of a tile from the `c`-th on, each at the slots behind the ones before it.
abbrev pub chunk_loop : ℕ → ℕ → ℕ → ℕ → ℕ → ℕ → ℕ → ℕ → ℕ → TiledQueue → TiledQueue
chunk_loop slot_base tile_id C T cpu_base gpu_base token_size n c = for_range n c λ chunk q.
    submit_chunk q (add64 slot_base (chunk * C)) tile_id chunk C T cpu_base gpu_base token_size

module _ (slot_base tile_id K C cpu_base gpu_base token_size : ℕ) (ring : K * C ≤ queue_size) where
  abbrev chunks : ℕ → ℕ → TiledQueue → TiledQueue
  chunks = chunk_loop slot_base tile_id C (K * C) cpu_base gpu_base token_size

  abbrev one : ℕ → TiledQueue → TiledQueue
  one chunk q =
      submit_chunk q (add64 slot_base (chunk * C)) tile_id chunk C (K * C) cpu_base gpu_base
        token_size

  chunk_fits : (c : ℕ) → c < K → C ≤ queue_size
  chunk_fits c h = grind arith

  one-other :
      (c p : ℕ) (q : TiledQueue)
      → c < K
      → ((i : ℕ) → i < C → slot_place slot_base (c * C + i) ≢ p)
      → (one c q).base.entries p ≡ q.base.entries p
  unfolding submit_chunk write_chunk
  one-other c p q hc h =
      submitted_other (chunk_entry tile_id c C (K * C) cpu_base gpu_base token_size)
        (add64 slot_base (c * C)) C q p (λ i hi e. h i hi (omega arith))

  chunks-other :
      (n c p : ℕ) (q : TiledQueue)
      → c + n ≤ K
      → ((j : ℕ) → c * C ≤ j → j < K * C → slot_place slot_base j ≢ p)
      → (chunks n c q).base.entries p ≡ q.base.entries p
  unfolding for_range
  chunks-other zero c p q hc h = refl
  chunks-other (suc n) c p q hc h =
      chunks-other n (c + 1) p (one c q) (omega arith) (λ j le lt. h j (omega arith) lt)
      ∙ one-other c p q (omega arith)
          (λ i hi. h (c * C + i) (omega arith) (in_tile c i C K hi (omega arith)))

  -- The token `c * C + i` right after its own chunk.
  one-at :
      (c i : ℕ) (q : TiledQueue)
      → c < K
      → i < C
      → tile_id * (K * C) + K * C < 2 ^ 32
      → (one c q).base.entries (slot_place slot_base (c * C + i))
        ≡ with_sequence (add64 slot_base (c * C + i)) (
            tile_entry tile_id
              (K * C)
              C
              cpu_base
              gpu_base
              token_size
              (c * C + i)
              (q.base.entries (slot_place slot_base (c * C + i))))
  unfolding submit_chunk write_chunk
  one-at c i q hc hi ht =
      let sum : add64 (add64 slot_base (c * C)) i ≡ add64 slot_base (c * C + i) = omega arith in
      rw
        (
          tile_entry-eq-chunk_entry tile_id K C c i cpu_base gpu_base token_size
              (q.base.entries (slot_place slot_base (c * C + i))) hi hc ht,
          ← sum,
        )
        (submitted_at (chunk_entry tile_id c C (K * C) cpu_base gpu_base token_size)
          (add64 slot_base (c * C)) C q i (chunk_fits c hc) hi)

  chunks-at :
      (n c j : ℕ) (q : TiledQueue)
      → c + n ≤ K
      → c * C ≤ j
      → j < (c + n) * C
      → tile_id * (K * C) + K * C < 2 ^ 32
      → (chunks n c q).base.entries (slot_place slot_base j)
        ≡ with_sequence (add64 slot_base j) (
            tile_entry tile_id
              (K * C)
              C
              cpu_base
              gpu_base
              token_size
              j
              (q.base.entries (slot_place slot_base j)))
  unfolding for_range
  chunks-at zero c j q hc lo hi ht = absurd (omega (arith, ap (λ (t : ℕ). t * C) (add-zero c)))
  chunks-at (suc n) c j q hc lo hi ht =
      let inside : j < K * C = below j (c + suc n) C K hc hi in
      let here : c * C + (j - c * C) ≡ j = omega arith in
      elim (dec_lt j (c * C + C)) [
        | yes mine ↦
            chunks-other n (c + 1) (slot_place slot_base j) (one c q) (omega arith) (λ k le lt e.
              absurd (
                omega (
                  arith,
                  slot_place-inj slot_base (K * C) k j ring lt
                      (omega (arith, in_tile c (j - c * C) C K (omega arith) (omega arith))) e,
                )))
            ∙ rw here at (one-at c (j - c * C) q (omega arith) (omega arith) ht)
        | no later ↦
            chunks-at n (c + 1) j (one c q) (omega arith) (omega arith) (omega arith) ht
            ∙ ap
                (λ d.
                  with_sequence (add64 slot_base j)
                    (tile_entry tile_id (K * C) C cpu_base gpu_base token_size j d))
                (one-other c (slot_place slot_base j) q (omega arith) (λ i hi e. absurd (
                  omega (
                    arith,
                    slot_place-inj slot_base (K * C) (c * C + i) j ring
                        (in_tile c i C K hi (omega arith)) inside e,
                  ))))
      ]

-- The offset of the only slot from `slot_base` on, within a ring's length, that stands in `p`.
offset_of : ℕ → ℕ → ℕ
offset_of slot_base p = (p + queue_size - slot_base % queue_size) % queue_size

offset_of-place :
    (slot_base p : ℕ) → p < queue_size → slot_place slot_base (offset_of slot_base p) ≡ p
unfolding offset_of
offset_of-place slot_base p h = omega arith

place-offset_of :
    (slot_base p j : ℕ) → j < queue_size → slot_place slot_base j ≡ p → j ≡ offset_of slot_base p
unfolding offset_of
place-offset_of slot_base p j h e = omega arith

-- Submitting a tile of `K * C` tokens in one go leaves the ring as the `K` submissions of its chunks
-- do, each at the slots behind the chunk before it: the same descriptor, flags and sequence word in
-- every place. The tile must fit in the ring, and its token indices in 32 bits.
pub submit_tile_as_chunks :
    (tq : TiledQueue) (slot_base tile_id K C cpu_base gpu_base token_size p : ℕ)
    → K * C ≤ queue_size
    → tile_id * (K * C) + K * C < 2 ^ 32
    → (submit_tile tq slot_base tile_id (K * C) C cpu_base gpu_base token_size).base.entries p
      ≡ (chunk_loop slot_base tile_id C (K * C) cpu_base gpu_base token_size K 0 tq).base.entries p
unfolding submit_tile
submit_tile_as_chunks tq slot_base tile_id K C cpu_base gpu_base token_size p ring ht =
    elim (dec_lt (offset_of slot_base p) (K * C)) [
      | yes h ↦ elim (dec_lt p queue_size) [
        | yes hp ↦
            let here = offset_of-place slot_base p hp in
            let j = offset_of slot_base p in
            rw here at (
              submitted_at change slot_base (K * C) tq j ring h
              ∙ sym (
                  chunks-at slot_base tile_id K C cpu_base gpu_base token_size ring K 0 j tq
                    (omega arith) (omega arith) (rw zero-add h) ht))
        | no hp ↦ untouched (λ j hj e. absurd (omega arith))
      ]
      | no h ↦
          untouched
            (λ j hj e. absurd (omega (arith, place-offset_of slot_base p j (omega arith) e)))
    ]
  where
    change : ℕ → Descriptor → Descriptor
    change = tile_entry tile_id (K * C) C cpu_base gpu_base token_size

    untouched :
        ((j : ℕ) → j < K * C → slot_place slot_base j ≢ p)
        → (submitted change slot_base (K * C) tq).base.entries p
          ≡ (chunk_loop slot_base tile_id C
                (K * C)
                cpu_base
                gpu_base
                token_size
                K
                0
                tq).base.entries
              p
    untouched h =
        submitted_other change slot_base (K * C) tq p h
        ∙ sym (
            chunks-other slot_base tile_id K C cpu_base gpu_base token_size ring K 0 p tq
              (omega arith) (λ j le lt. h j lt))

-- ===== src/Tiled/Chunks.antt =====
-- What a warp's submission leaves in the ring.
use gfd.Base.{
  ℕ, ◌==◌, has_flag, ◌+◌, ◌*◌, ◌/◌, ◌%◌, ◌^◌, ◌<◌, ◌≤◌, ◌≡◌, ◌≢◌, refl, ap, ◌∙◌, arith, warp_at,
  warp_other,
}
use gfd.Queue.{Descriptor, place, queue_size, add64, mul64, add32, mul32, pack, flag_last_in_tile}
use gfd.Tiled.{
  TiledQueue, chunk_entry, with_sequence, slot_place, over_slots, write_chunk, commit_chunk,
  submit_chunk,
}

-- Fewer than a ring's worth of slots stand in different places.
pub slot_place-inj :
    (slot_base count i j : ℕ)
    → count ≤ queue_size
    → i < count
    → j < count
    → slot_place slot_base i ≡ slot_place slot_base j
    → i ≡ j
slot_place-inj slot_base count i j hc hi hj e = omega arith

-- A warp's loop rewrites the descriptor of each of its slots once.
over_slots_at :
    (change : ℕ → Descriptor → Descriptor) (slot_base count j : ℕ) (tq : TiledQueue)
    → count ≤ queue_size
    → j < count
    → (over_slots change slot_base count tq).base.entries (slot_place slot_base j)
      ≡ change j (tq.base.entries (slot_place slot_base j))
unfolding over_slots
over_slots_at change slot_base count j tq hc hj =
    warp_at (slot_place slot_base) change count j tq.base.entries hj
      (λ i hi e. slot_place-inj slot_base count i j hc hi hj e)

over_slots_other :
    (change : ℕ → Descriptor → Descriptor) (slot_base count p : ℕ) (tq : TiledQueue)
    → ((i : ℕ) → i < count → slot_place slot_base i ≢ p)
    → (over_slots change slot_base count tq).base.entries p ≡ tq.base.entries p
unfolding over_slots
over_slots_other change slot_base count p tq h =
    warp_other (slot_place slot_base) change count p tq.base.entries h

-- Writing `count` descriptors from `slot_base` and committing them.
module _ (change : ℕ → Descriptor → Descriptor) (slot_base count : ℕ) (tq : TiledQueue) where
  abbrev pub submitted : TiledQueue
  submitted = commit_chunk (over_slots change slot_base count tq) slot_base count

  pub submitted_at :
      (j : ℕ)
      → count ≤ queue_size
      → j < count
      → (submitted).base.entries (slot_place slot_base j)
        ≡ with_sequence (add64 slot_base j) (change j (tq.base.entries (slot_place slot_base j)))
  unfolding commit_chunk
  submitted_at j hc hj =
      over_slots_at (λ i. with_sequence (add64 slot_base i)) slot_base count j
        (over_slots change slot_base count tq) hc hj
      ∙ ap (with_sequence (add64 slot_base j)) (over_slots_at change slot_base count j tq hc hj)

  pub submitted_other :
      (p : ℕ)
      → ((i : ℕ) → i < count → slot_place slot_base i ≢ p)
      → (submitted).base.entries p ≡ tq.base.entries p
  unfolding commit_chunk
  submitted_other p h =
      over_slots_other (λ i. with_sequence (add64 slot_base i)) slot_base count p
        (over_slots change slot_base count tq) h
      ∙ over_slots_other change slot_base count p tq h

chunk_token :
    (tile_id chunk_id C T j : ℕ)
    → tile_id * T + chunk_id * C + C < 2 ^ 32
    → j < C
    → add32 (mul32 tile_id T) (add32 (mul32 chunk_id C) j) ≡ tile_id * T + chunk_id * C + j
chunk_token tile_id chunk_id C T j h hj = omega arith

-- The fields of a chunk's descriptor, where no address wraps.
chunk_entry_fields :
    (tile_id chunk_id C T cpu_base gpu_base token_size j : ℕ) (d : Descriptor)
    → tile_id * T + chunk_id * C + C < 2 ^ 32
    → j < C
    → let token = tile_id * T + chunk_id * C + j in
      let e = chunk_entry tile_id chunk_id C T cpu_base gpu_base token_size j d in
      (e.src_addr ≡ add64 cpu_base (mul64 token token_size))
      × (e.dst_addr ≡ add64 gpu_base (mul64 token token_size))
      × (e.size ≡ token_size)
      × (e.user_data ≡ pack tile_id token)
      × (has_flag e.flags flag_last_in_tile ≡ (j + 1 == C))
unfolding chunk_entry has_flag
chunk_entry_fields tile_id chunk_id C T cpu_base gpu_base token_size j d h hj =
    rw (chunk_token tile_id chunk_id C T j h hj) (refl, refl, refl, refl, ground arith)

-- After a chunk's submission the poller finds, in slot `slot_base + j`, the copy of token
-- `tile_id * T + chunk_id * C + j` from its place in the source to its place in the destination,
-- ready, with the tile in the upper half of its user data; the last token of the chunk alone
-- carries the flag that ends a chunk. Places of no slot of the chunk keep their descriptor.
pub submit_chunk_publishes :
    (tq : TiledQueue) (slot_base tile_id chunk_id C T cpu_base gpu_base token_size j : ℕ)
    → C ≤ queue_size
    → slot_base + C < 2 ^ 64
    → tile_id * T + chunk_id * C + C < 2 ^ 32
    → cpu_base + (tile_id * T + chunk_id * C + j) * token_size < 2 ^ 64
    → gpu_base + (tile_id * T + chunk_id * C + j) * token_size < 2 ^ 64
    → j < C
    → let token = tile_id * T + chunk_id * C + j in
      let tq' = submit_chunk tq slot_base tile_id chunk_id C T cpu_base gpu_base token_size in
      let d = tq'.base.entries (place (slot_base + j)) in
      (d.src_addr ≡ cpu_base + token * token_size)
      × (d.dst_addr ≡ gpu_base + token * token_size)
      × (d.size ≡ token_size)
      × (d.user_data / 2 ^ 32 ≡ tile_id)
      × (d.user_data % 2 ^ 32 ≡ token)
      × (has_flag d.flags flag_last_in_tile ≡ (j + 1 == C))
      × (d.sequence ≡ slot_base + j + 1)
      × ((p : ℕ)
          → ((i : ℕ) → i < C → place (slot_base + i) ≢ p)
          → tq'.base.entries p ≡ tq.base.entries p)
unfolding submit_chunk write_chunk with_sequence
submit_chunk_publishes tq slot_base tile_id chunk_id C T cpu_base gpu_base token_size j hc hs ht
      hsrc hdst hj =
    let change = chunk_entry tile_id chunk_id C T cpu_base gpu_base token_size in
    let here : place (slot_base + j) ≡ slot_place slot_base j = omega arith in
    let at : (submitted change slot_base C tq).base.entries (place (slot_base + j))
        ≡ with_sequence (add64 slot_base j) (change j (tq.base.entries (slot_place slot_base j))) =
      rw here (submitted_at change slot_base C tq j hc hj) in
    let f =
      chunk_entry_fields tile_id chunk_id C T cpu_base gpu_base token_size j
        (tq.base.entries (slot_place slot_base j)) ht hj in
    (
      ap (λ (d : Descriptor). d.src_addr) at ∙ f.0 ∙ omega arith,
      ap (λ (d : Descriptor). d.dst_addr) at ∙ f.1 ∙ omega arith,
      ap (λ (d : Descriptor). d.size) at ∙ f.2,
      ap (λ (d : Descriptor). d.user_data / 2 ^ 32) at
          ∙ ap (λ (n : ℕ). n / 2 ^ 32) f.3
          ∙ omega arith,
      ap (λ (d : Descriptor). d.user_data % 2 ^ 32) at
          ∙ ap (λ (n : ℕ). n % 2 ^ 32) f.3
          ∙ omega arith,
      ap (λ (d : Descriptor). has_flag d.flags flag_last_in_tile) at ∙ f.4,
      ap (λ (d : Descriptor). d.sequence) at ∙ omega arith,
      λ p h. submitted_other change slot_base C tq p λ i hi e. h i hi (omega arith),
    )

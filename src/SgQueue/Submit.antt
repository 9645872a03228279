-- ===== src/SgQueue/Submit.antt =====
-- A list on its way from a producer to the descriptor ring.
use gfd.Base.{
  ℕ, ◌+◌, ◌/◌, ◌%◌, ◌^◌, ◌<◌, ◌≤◌, ◌≡◌, refl, ap, ◌∙◌, Bool, true, false, arith, ◌==◌,
  if◌then◌else◌, warp, warp_at, has_flag,
}
use gfd.Base.Loops.{touch}
use gfd.Queue.{Descriptor, DescriptorQueue, place, add64, queue_size, flag_none, flag_last_in_tile}
use gfd.SgPoller.{max_sg_lists}
use gfd.SgQueue.{
  SgTaskQueue, SgList, DeviceSgEntry, max_sg_pool_entries, pool_place, submit_sg_list,
  list_committed, list_descriptor, transfer_list,
}
use gfd.SgQueue.Loops.{for_range-at}

pub pool_place-inj :
    (base count i j : ℕ)
    → count ≤ max_sg_pool_entries
    → i < count
    → j < count
    → pool_place base i ≡ pool_place base j
    → i ≡ j
pool_place-inj base count i j h hi hj e = omega arith

slot-inj :
    (base count i j : ℕ)
    → count ≤ queue_size
    → i < count
    → j < count
    → place (add64 base i) ≡ place (add64 base j)
    → i ≡ j
slot-inj base count i j h hi hj e = omega arith

transferred_at :
    (l : SgList) (tq : SgTaskQueue) (dq : DescriptorQueue) (desc_base j : ℕ)
    → l.count ≤ queue_size
    → j < l.count
    → (transfer_list tq l desc_base dq).entries (place (add64 desc_base j))
      ≡ record (list_descriptor tq l j (dq.entries (place (add64 desc_base j)))) {
        sequence = add64 (add64 desc_base j) 1;
      }
unfolding transfer_list
transferred_at l tq dq desc_base j hc hj =
    let key = λ (i : ℕ). place (add64 desc_base i) in
    let mark = λ (i : ℕ) (d : Descriptor). record d { sequence = add64 (add64 desc_base i) 1 } in
    let written = warp l.count (touch key (list_descriptor tq l) l.count) dq.entries in
    warp_at key mark l.count j written hj (λ i hi e. slot-inj desc_base l.count i j hc hi hj e)
    ∙ ap (mark j) (
        warp_at key (list_descriptor tq l) l.count j dq.entries hj
          (λ i hi e. slot-inj desc_base l.count i j hc hi hj e))

end_flag :
    (last : Bool)
    → has_flag (if last then flag_last_in_tile else flag_none) flag_last_in_tile ≡ last
unfolding has_flag
end_flag true = refl
end_flag false = refl

module _ (sq : SgTaskQueue) (entries : ℕ → DeviceSgEntry) (count list_id flags : ℕ) where
  abbrev pub after_host : SgTaskQueue
  after_host = (submit_sg_list sq entries count list_id flags).1

  abbrev pub header : SgList
  header = (after_host).lists (sq.list_alloc_idx % max_sg_lists)

  header-eq : header ≡ record {
    pool_offset = sq.entry_alloc_idx % max_sg_pool_entries;
    count = count;
    list_id = list_id;
    flags = flags;
    sequence = add64 sq.list_alloc_idx 1;
  }
  unfolding submit_sg_list
  header-eq = ground arith

  stored_entry :
      (j : ℕ)
      → count ≤ max_sg_pool_entries
      → j < count
      → (after_host).entries ((header.pool_offset + j) % 2 ^ 32 % max_sg_pool_entries) ≡ entries j
  unfolding submit_sg_list
  stored_entry j hc hj =
      let here : (header.pool_offset + j) % 2 ^ 32 % max_sg_pool_entries
          ≡ pool_place sq.entry_alloc_idx j =
        omega (arith, ap (λ (l : SgList). l.pool_offset) header-eq, hc, hj) in
      ap (after_host).entries here
      ∙ for_range-at (pool_place sq.entry_alloc_idx) entries count 0 j sq.entries (omega arith)
          (omega arith)
          (λ i le lt e. pool_place-inj sq.entry_alloc_idx count i j hc (omega arith) hj e)

  -- A list that the host submits is committed in its slot, and the transfer warp turns its entry `j` into
  -- the descriptor in slot `desc_base + j`: the entry's addresses and size, the list in the upper half of
  -- the user data and `j` in the lower, the end flag on the last entry alone, and the sequence word that
  -- the poller waits for. The list fits in the pool, and no counter wraps.
  pub submitted_list_arrives :
      (dq : DescriptorQueue) (desc_base j : ℕ)
      → count ≤ max_sg_pool_entries
      → desc_base + count < 2 ^ 64
      → list_id < 2 ^ 32
      → j < count
      → let d = (transfer_list after_host header desc_base dq).entries (place (desc_base + j)) in
        (list_committed after_host sq.list_alloc_idx ≡ true)
        × (d.src_addr ≡ (entries j).src_addr)
        × (d.dst_addr ≡ (entries j).dst_addr)
        × (d.size ≡ (entries j).size)
        × (d.user_data / 2 ^ 32 ≡ list_id)
        × (d.user_data % 2 ^ 32 ≡ j)
        × (has_flag d.flags flag_last_in_tile ≡ (j + 1 == count))
        × (d.sequence ≡ desc_base + j + 1)
  unfolding list_committed list_descriptor
  submitted_list_arrives dq desc_base j hc hs hl hj =
      let h = header-eq in
      let number : header.count ≡ count = ap (λ (l : SgList). l.count) h in
      let id : header.list_id ≡ list_id = ap (λ (l : SgList). l.list_id) h in
      let word : header.sequence ≡ add64 sq.list_alloc_idx 1 = ap (λ (l : SgList). l.sequence) h in
      let e = stored_entry j hc hj in
      let here : place (desc_base + j) ≡ place (add64 desc_base j) = omega arith in
      let at =
        transferred_at header after_host dq desc_base j (omega (arith, number, hc))
          (omega (arith, number, hj)) in
      let d = λ (f : Descriptor → ℕ).
        ap (λ q. f ((transfer_list after_host header desc_base dq).entries q)) here ∙ ap f at in
      (
        ground (arith, word),
        d (λ x. x.src_addr) ∙ ap (λ (x : DeviceSgEntry). x.src_addr) e,
        d (λ x. x.dst_addr) ∙ ap (λ (x : DeviceSgEntry). x.dst_addr) e,
        d (λ x. x.size) ∙ ap (λ (x : DeviceSgEntry). x.size) e,
        d (λ x. x.user_data / 2 ^ 32) ∙ omega (arith, id, hj, hc),
        d (λ x. x.user_data % 2 ^ 32) ∙ omega (arith, id, hj, hc),
        ap (λ n. has_flag n flag_last_in_tile) (d (λ x. x.flags))
            ∙ end_flag (j + 1 == header.count)
            ∙ ap (λ c. j + 1 == c) number,
        d (λ x. x.sequence) ∙ omega arith,
      )

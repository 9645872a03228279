-- ===== src/FlushBatch/Progress.antt =====
-- The loops over the entries of a batch: what each adds to the progress of a tile.
use gfd.Base.{
  ℕ, ◌+◌, ◌^◌, ◌<◌, ◌≤◌, ◌≡◌, ap, ◌∙◌, Bool, true, arith, ltb, ◌==◌, ◌&&◌, if◌then◌else◌, ◌⊎◌, inl,
  inr, update, List, [], ◌∷◌, ◌++◌, length, length-append, ℕ_discrete, Bool-cases,
}
use gfd.Queue.{Descriptor, max_tiles, add64}
use gfd.Batch.{id_of}
use gfd.FlushBatch.{
  CpuPoller, Marks, mark_one, mark_tiles, is_last, count_tile, signal_entry, signal_entries,
  publish_tiles,
}

signal_entry-tile_progress :
    (t : ℕ) (d : Descriptor) (p : CpuPoller)
    → t < max_tiles
    → p.tile_progress t + 1 < 2 ^ 64
    → (signal_entry d p).tile_progress t ≡ p.tile_progress t + (if id_of d == t then 1 else 0)
unfolding signal_entry
signal_entry-tile_progress t d p lt fits = elim (ℕ_discrete (id_of d) t) [
  | yes same ↦ ground (arith, same, lt, fits, ap p.tile_progress same)
  | no other ↦ ground (arith, other)
]

pub signal_entries-tile_progress :
    (t : ℕ) (ds : List Descriptor) (p : CpuPoller)
    → t < max_tiles
    → p.tile_progress t + length ds < 2 ^ 64
    → (signal_entries ds p).tile_progress t ≡ p.tile_progress t + count_tile t ds
unfolding signal_entries count_tile
signal_entries-tile_progress t [] p lt fits = omega arith
signal_entries-tile_progress t (d ∷ ds) p lt fits =
    let one = signal_entry-tile_progress t d p lt (omega arith) in
    let ih = signal_entries-tile_progress t ds (signal_entry d p) lt (ground (arith, one, fits)) in
    ih ∙ omega (arith, one)

-- The entries hold the last one of the tile `t`.
abbrev pub HasLast : ℕ → List Descriptor → Type 0
HasLast t [] = ⊥
HasLast t (d ∷ ds) = ((is_last d ≡ true) × (id_of d ≡ t)) ⊎ HasLast t ds

abbrev pub Names : ℕ → List ℕ → Type 0
Names t [] = ⊥
Names t (k ∷ ks) = (k ≡ t) ⊎ Names t ks

Names-append : (t : ℕ) (ks : List ℕ) (k : ℕ) → (k ≡ t) ⊎ Names t ks → Names t (ks ++ k ∷ [])
Names-append t [] k (inl same) = inl same
Names-append t [] k (inr m) = absurd m
Names-append t (j ∷ ks) k (inl same) = inr (Names-append t ks k (inl same))
Names-append t (j ∷ ks) k (inr (inl here)) = inl here
Names-append t (j ∷ ks) k (inr (inr m)) = inr (Names-append t ks k (inr m))

abbrev marks : Descriptor → Marks → Bool
marks d m = is_last d && ltb (length m.tile_ids) max_tiles && ltb (id_of d) max_tiles

abbrev next : Descriptor → Marks → Marks
next d m = if marks d m then mark_one (id_of d) m else m

-- Once a tile has been added nothing of it is left to add, and it stays named.
abbrev pub Added : ℕ → ℕ → Marks → Type 0
Added t total m = (m.progress t ≡ total) × (m.counts t ≡ 0) × Names t m.tile_ids

next-Added :
    (t total : ℕ) (d : Descriptor) (m : Marks)
    → total < 2 ^ 64
    → Added t total m
    → Added t total (next d m)
next-Added t total d m small a = elim (Bool-cases (marks d m)) [
  | inr skip ↦ rw skip a
  | inl mark ↦ rw mark (elim (ℕ_discrete (id_of d) t) [
    | yes same ↦ (
      ground (arith, same, a.0, a.1, small),
      ground (arith, same),
      Names-append t m.tile_ids (id_of d) (inl same),
    )
    | no other ↦ (
      ground (arith, other, a.0),
      ground (arith, other, a.1),
      Names-append t m.tile_ids (id_of d) (inr a.2),
    )
  ])
]

mark_tiles-Added :
    (t total : ℕ) (ds : List Descriptor) (m : Marks)
    → total < 2 ^ 64
    → Added t total m
    → Added t total (mark_tiles ds m)
unfolding mark_tiles
mark_tiles-Added t total [] m small a = a
mark_tiles-Added t total (d ∷ ds) m small a =
    mark_tiles-Added t total ds (next d m) small (next-Added t total d m small a)

-- With room for all tiles, the count of a tile whose last entry is there is added once.
pub mark_tiles-HasLast :
    (t total : ℕ) (ds : List Descriptor) (m : Marks)
    → t < max_tiles
    → total < 2 ^ 64
    → length m.tile_ids + length ds ≤ max_tiles
    → m.progress t + m.counts t ≡ total
    → HasLast t ds
    → Added t total (mark_tiles ds m)
unfolding mark_tiles
mark_tiles-HasLast t total [] m lt small room sum h = absurd h
mark_tiles-HasLast t total (d ∷ ds) m lt small room sum (inl (last, same)) =
    let mark : marks d m ≡ true = ground (arith, last, same, lt, room) in
    let whole : add64 (m.progress t) (m.counts t) ≡ total = omega (arith, sum) in
    let first : Added t total (next d m) = rw mark (
      ground (arith, same, whole, ap m.progress same, ap m.counts same),
      ground (arith, same),
      Names-append t m.tile_ids (id_of d) (inl same),
    ) in
    mark_tiles-Added t total ds (next d m) small first
mark_tiles-HasLast t total (d ∷ ds) m lt small room sum (inr later) =
    let longer = length-append m.tile_ids (id_of d ∷ []) in
    let kept : ((next d m).progress t + (next d m).counts t ≡ total)
        × (length (next d m).tile_ids ≤ length m.tile_ids + 1) =
      elim (Bool-cases (marks d m)) [
        | inr skip ↦ rw skip (sum, omega arith)
        | inl mark ↦ rw mark (elim (ℕ_discrete (id_of d) t) [
          | yes same ↦ (
            ground (arith, same, sum, small, ap m.progress same, ap m.counts same),
            omega (arith, longer),
          )
          | no other ↦ (ground (arith, other, sum), omega (arith, longer))
        ])
      ] in
    mark_tiles-HasLast t total ds (next d m) lt small (omega (arith, kept.1, room)) kept.0 later

publish_tiles-kept :
    (t : ℕ) (ts : List ℕ) (progress done : ℕ → ℕ)
    → done t ≡ progress t
    → publish_tiles ts progress done t ≡ progress t
unfolding publish_tiles
publish_tiles-kept t [] progress done e = e
publish_tiles-kept t (k ∷ ks) progress done e =
    publish_tiles-kept t ks progress (update done k (progress k)) (elim (ℕ_discrete k t) [
      | yes same ↦ ground (arith, same, ap progress same)
      | no other ↦ ground (arith, other, e)
    ])

-- The word of a tile of the event is its progress now.
pub publish_tiles-Names :
    (t : ℕ) (ts : List ℕ) (progress done : ℕ → ℕ)
    → Names t ts
    → publish_tiles ts progress done t ≡ progress t
unfolding publish_tiles
publish_tiles-Names t [] progress done m = absurd m
publish_tiles-Names t (k ∷ ks) progress done (inl same) =
    publish_tiles-kept t ks progress (update done k (progress k))
      (ground (arith, same, ap progress same))
publish_tiles-Names t (k ∷ ks) progress done (inr m) =
    publish_tiles-Names t ks progress (update done k (progress k)) m

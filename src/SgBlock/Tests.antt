-- ===== src/SgBlock/Tests.antt =====
-- A block with one list, and one whose compute warp is slow.
use gfd.Base.{true, false, List, [], ◌∷◌, ◌++◌, ◌≡◌, refl, none, some}
use gfd.SgBlock.{
  SgListView, waiting_for_compute, left, Block, Turn, transfer_turn, compute_turn, block_step,
  block_steps, block_start, transfer_step, compute_step, transfer_at, compute_at,
}
use gfd.SgBlock.Order.{Reach, at_start, next, UpToOne, computed_in_order}
use gfd.SgBlock.LostSignal.{late_store_blocks}

abbrev list : SgListView
list = record { list_id = 7; count = 3; flags = 0; pool_offset = 12 }

-- The next list is there, and the copies of the last one are done.
abbrev t : Turn
t = transfer_turn (record { committed = some list; list_done = true })

abbrev c : Turn
c = compute_turn

steps-Reach : (turns : List Turn) {b : Block} → Reach b → Reach (block_steps turns b)
unfolding block_steps
steps-Reach [] r = r
steps-Reach (turn ∷ turns) r = steps-Reach turns (next turn r)

-- A list signalled and computed, and `terminate`
abbrev one_list : List Turn
one_list =
    t
    ∷ t
    ∷ t
    ∷ t
    ∷ t
    ∷ c
    ∷ c
    ∷ c
    ∷ c
    ∷ c
    ∷ t
    ∷ transfer_turn (record { committed = none; list_done = false })
    ∷ []

computed_in_order_example :
    UpToOne (block_steps one_list block_start)
    × ((block_steps one_list block_start).transfer ≡ left
        → (block_steps one_list block_start).signalled
          ≡ (block_steps one_list block_start).computed)
computed_in_order_example = computed_in_order (steps-Reach one_list at_start)

one_list-computed : (block_steps one_list block_start).computed ≡ list ∷ []
unfolding block_steps block_step block_start transfer_step compute_step transfer_at compute_at
one_list-computed = refl

-- The transfer warp signals a second list before the compute warp lowers `list_ready`.
abbrev two_lists : List Turn
two_lists = t ∷ t ∷ t ∷ t ∷ t ∷ c ∷ c ∷ c ∷ c ∷ t ∷ t ∷ t ∷ t ∷ t ∷ t ∷ []

late_store_blocks_example :
    let later = block_steps (t ∷ c ∷ c ∷ []) (compute_step (block_steps two_lists block_start)) in
    (later.transfer ≡ waiting_for_compute)
    × (later.signalled ≡ (block_steps two_lists block_start).computed ++ list ∷ [])
    × (later.computed ≡ (block_steps two_lists block_start).computed)
unfolding block_steps block_step block_start transfer_step compute_step transfer_at compute_at
late_store_blocks_example =
    late_store_blocks (t ∷ c ∷ c ∷ []) (steps-Reach two_lists at_start) refl refl refl

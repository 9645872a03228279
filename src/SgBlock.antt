-- ===== src/SgBlock.antt =====
-- The two warps of a block that processes scatter-gather lists (include/gfd/sg_warp_spec.cuh,
-- _sg_transfer_warp_loop). Each warp acts through its lane 0, with one access to the shared state in a
-- step. What the transfer warp does to the queues is in SgQueue.
pub mod Phases
pub mod Order
pub mod LostSignal
pub mod Tests
use gfd.Base.{ℕ, Bool, true, false, if◌then◌else◌, Option, none, some, List, [], ◌∷◌, ◌++◌}

-- What both `SGListView` and the shared state have of a list.
pub record SgListView : Type 0 where
  pub list_id : ℕ
  pub count : ℕ
  pub flags : ℕ
  pub pool_offset : ℕ

pub record SgWarpSpecState : Type 0 where
  pub view : SgListView
  pub list_ready : Bool
  pub compute_done : Bool
  pub terminated : Bool

-- Where the transfer warp is.
pub data TransferAt : Type 0 where
  polling : TransferAt
  publishing : SgListView → TransferAt
  resetting_ready : TransferAt
  resetting_done : TransferAt
  -- from the submission of the descriptors to the signal that the copies are done
  waiting_for_copies : TransferAt
  waiting_for_compute : TransferAt
  left : TransferAt

-- Where the compute warp is.
pub data ComputeAt : Type 0 where
  loading_ready : ComputeAt
  loading_terminated : ComputeAt
  checking : ComputeAt
  computing : ComputeAt
  marking_done : ComputeAt
  clearing_ready : ComputeAt
  ended : ComputeAt

-- The lists that were signalled and the lists that were computed are kept beside the state.
pub record Block : Type 0 where
  pub transfer : TransferAt
  pub compute : ComputeAt
  pub shared : SgWarpSpecState
  pub signalled : List SgListView
  pub computed : List SgListView

-- What ends the transfer warp's polling: a committed list, or `terminate`; and whether the signal for
-- the list is up.
pub record TransferInput : Type 0 where
  pub committed : Option SgListView
  pub list_done : Bool

abbrev at_transfer : Block → TransferAt → Block
at_transfer b t = record b { transfer = t }

unfoldable pub transfer_at : TransferAt → TransferInput → Block → Block
transfer_at polling i b = elim i.committed [
  | none ↦ record b { transfer = left; shared = record (b.shared) { terminated = true } }
  | some list ↦ record b { transfer = publishing list }
]
transfer_at (publishing list) i b = record b {
  transfer = resetting_ready;
  shared = record (b.shared) { view = list };
}
transfer_at resetting_ready i b = record b {
  transfer = resetting_done;
  shared = record (b.shared) { list_ready = false };
}
transfer_at resetting_done i b = record b {
  transfer = waiting_for_copies;
  shared = record (b.shared) { compute_done = false };
}
transfer_at waiting_for_copies i b =
    if i.list_done
    then record b {
      transfer = waiting_for_compute;
      shared = record (b.shared) { list_ready = true };
      signalled = b.signalled ++ b.shared.view ∷ [];
    }
    else b
transfer_at waiting_for_compute i b =
    if b.shared.compute_done then record b { transfer = polling } else b
transfer_at left i b = b

unfoldable pub transfer_step : TransferInput → Block → Block
transfer_step i b = transfer_at b.transfer i b

unfoldable pub compute_at : ComputeAt → Block → Block
compute_at loading_ready b = record b {
  compute = if b.shared.list_ready then checking else loading_terminated;
}
compute_at loading_terminated b = record b {
  compute = if b.shared.terminated then checking else loading_ready;
}
compute_at checking b = record b { compute = if b.shared.terminated then ended else computing }
compute_at computing b = record b {
  compute = marking_done;
  computed = b.computed ++ b.shared.view ∷ [];
}
compute_at marking_done b = record b {
  compute = clearing_ready;
  shared = record (b.shared) { compute_done = true };
}
compute_at clearing_ready b = record b {
  compute = loading_ready;
  shared = record (b.shared) { list_ready = false };
}
compute_at ended b = b

unfoldable pub compute_step : Block → Block
compute_step b = compute_at b.compute b

-- One warp takes a step.
pub data Turn : Type 0 where
  transfer_turn : TransferInput → Turn
  compute_turn : Turn

unfoldable pub block_step : Turn → Block → Block
block_step (transfer_turn i) b = transfer_step i b
block_step compute_turn b = compute_step b

unfoldable pub block_steps : List Turn → Block → Block
block_steps [] b = b
block_steps (turn ∷ turns) b = block_steps turns (block_step turn b)

abbrev pub no_list : SgListView
no_list = record { list_id = 0; count = 0; flags = 0; pool_offset = 0 }

-- After the first `__syncthreads`
unfoldable pub block_start : Block
block_start = record {
  transfer = polling;
  compute = loading_ready;
  shared = record { view = no_list; list_ready = false; compute_done = false; terminated = false };
  signalled = [];
  computed = [];
}

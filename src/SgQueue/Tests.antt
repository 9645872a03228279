-- ===== src/SgQueue/Tests.antt =====
-- Concrete lists, and a queue whose pool has gone round.
use gfd.Base.{ℕ, ◌+◌, ◌*◌, ◌/◌, ◌%◌, ◌^◌, ◌≡◌, true, false, arith, ◌==◌, has_flag}
use gfd.Queue.{DescriptorQueue, place, flag_last_in_tile}
use gfd.SgQueue.{
  DeviceSgEntry, SgTaskQueue, sg_wait_entry_space, sg_submit_list, submit_sg_list, claim_list,
  list_committed, transfer_list,
}
use gfd.SgQueue.Submit.{after_host, header, submitted_list_arrives}
use gfd.SgQueue.Producers.{sg_submit_list_as_host}
use gfd.SgQueue.Backpressure.{done, later, claim, full_pool_blocks}

abbrev at_index : ℕ → SgTaskQueue
at_index n = record {
  lists = λ p. record { pool_offset = 0; count = 0; list_id = 0; flags = 0; sequence = 0 };
  entries = λ p. record { src_addr = 0; dst_addr = 0; size = 0; tag = 0 };
  list_alloc_idx = 600;
  entry_alloc_idx = n;
  list_read_idx = 600;
  entry_consumed_idx = 16384;
  lists_completed = 600;
  terminate = 0;
}

abbrev experts : ℕ → DeviceSgEntry
experts i = record { src_addr = 4096 * i; dst_addr = 65536 + 64 * i; size = 64; tag = 5 }

abbrev empty_ring : DescriptorQueue
empty_ring = record {
  entries =
      λ p. record { src_addr = 0; dst_addr = 0; size = 0; flags = 0; user_data = 0; sequence = 0 };
  write_idx = 0;
  read_idx = 0;
  done_idx = 0;
}

submitted_list_arrives_example :
    let sq' = after_host (at_index 16382) experts 4 9 1 in
    let l = header (at_index 16382) experts 4 9 1 in
    let d = (transfer_list sq' l 16380 empty_ring).entries (place (16380 + 3)) in
    (list_committed sq' 600 ≡ true)
    × (d.src_addr ≡ (experts 3).src_addr)
    × (d.dst_addr ≡ (experts 3).dst_addr)
    × (d.size ≡ (experts 3).size)
    × (d.user_data / 2 ^ 32 ≡ 9)
    × (d.user_data % 2 ^ 32 ≡ 3)
    × (has_flag d.flags flag_last_in_tile ≡ (3 + 1 == 4))
    × (d.sequence ≡ 16380 + 3 + 1)
submitted_list_arrives_example =
    submitted_list_arrives (at_index 16382) experts 4 9 1 empty_ring 16380 3 (omega arith)
      (omega arith) (omega arith) (omega arith)

sg_submit_list_as_host_example :
    let device = sg_submit_list (at_index 16382) experts 4 9 1 in
    let host = submit_sg_list (at_index 16382) experts 4 9 1 in
    (device.0 ≡ host.0)
    × (device.1.entries 1 ≡ host.1.entries 1)
    × (device.1.lists 1 ≡ host.1.lists 1)
    × (device.1.list_alloc_idx ≡ host.1.list_alloc_idx)
    × (device.1.entry_alloc_idx ≡ host.1.entry_alloc_idx)
    × (device.1.list_read_idx ≡ host.1.list_read_idx)
    × (device.1.entry_consumed_idx ≡ host.1.entry_consumed_idx)
sg_submit_list_as_host_example =
    sg_submit_list_as_host (at_index 16382) experts 4 9 1 1 (omega arith)

-- All entries of the three rounds are consumed, and there is room for none.
full_pool_blocks_example : sg_wait_entry_space (claim_list (at_index 49152)).1 1 ≡ false
full_pool_blocks_example =
    full_pool_blocks 1 (later claim done)
      (record {
        list_offset = λ p. omega arith;
        list_count = λ p. omega arith;
        consumed = omega arith;
        allocated = omega arith;
      })
      (omega arith) (omega arith)

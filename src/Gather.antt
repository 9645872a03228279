-- ===== src/Gather.antt =====
-- src/parallel_gather.cpp: copying the entries of a batch into a staging buffer, with the calling thread
-- and its workers on contiguous ranges. Prefetches and the width of the stores are left out.
pub mod Parts
pub mod Handshake
pub mod Tests
use gfd.Base.{
  concat, map, Option, none, some, ℕ, zero, suc, ◌+◌, ◌-◌, ◌*◌, ◌/◌, min, Bool, true, false, leb,
  if◌then◌else◌, List, [], ◌∷◌, length, slice, update,
}
use gfd.Queue.{sub64}
use gfd.Driver.{SgEntry}
use gfd.Memory.{Memory, copied, copied_all}

-- The stores of `start` and `end`; the flags are in Gather/Handshake.antt.
pub record GatherTask : Type 0 where
  pub entries : List SgEntry
  pub min_dst : ℕ
  pub start : ℕ
  pub end : ℕ
  pub assigned : Bool

-- Where an entry goes in the staging buffer.
abbrev pub staged : ℕ → SgEntry → SgEntry
staged min_dst e = record e { dst = sub64 e.dst min_dst }

unfoldable pub gather_entries : Memory → ℕ → List SgEntry → Memory → Memory
gather_entries host min_dst [] staging = staging
gather_entries host min_dst (e ∷ es) staging =
    gather_entries host min_dst es (copied host (staged min_dst e) staging)

-- The copies that a worker makes for its task, in its order.
unfoldable pub task_copies : GatherTask → List SgEntry
task_copies task =
    if task.assigned then map (staged task.min_dst) (slice task.start task.end task.entries) else []

module _ (entries : List SgEntry) (min_dst chunk : ℕ) where
  abbrev pub task_of : ℕ → GatherTask
  task_of w =
      let start = (w + 1) * chunk in
      if leb (length entries) start
      then record { entries = []; min_dst = 0; start = 0; end = 0; assigned = false }
      else record {
        entries = entries;
        min_dst = min_dst;
        start = start;
        end = min (start + chunk) (length entries);
        assigned = true;
      }

  -- `left` workers from `w` on.
  unfoldable pub assign : ℕ → ℕ → List GatherTask
  assign zero w = []
  assign (suc left) w = task_of w ∷ assign left (w + 1)

-- The next copy of a thread, if it has one left, and what is left for the threads.
unfoldable pub next_copy : ℕ → List (List SgEntry) → Option SgEntry × List (List SgEntry)
next_copy thread [] = (none, [])
next_copy zero ([] ∷ threads) = (none, [] ∷ threads)
next_copy zero ((e ∷ es) ∷ threads) = (some e, es ∷ threads)
next_copy (suc thread) (es ∷ threads) = let r = next_copy thread threads in (r.0, es ∷ r.1)

-- The copies of all threads in the order of the turns; what is left after them, thread after thread.
unfoldable pub in_turns : List ℕ → List (List SgEntry) → List SgEntry
in_turns [] threads = concat threads
in_turns (turn ∷ turns) threads =
    let r = next_copy turn threads in
    elim (r.0) [ none ↦ in_turns turns (r.1) | some e ↦ e ∷ in_turns turns (r.1) ]

-- The threads' copies: the caller's part, then the workers'.
unfoldable pub thread_copies : ℕ → List SgEntry → ℕ → List (List SgEntry)
unfolding task_copies assign
thread_copies num_workers entries min_dst =
    let total_threads = num_workers + 1 in
    let chunk = (length entries + total_threads - 1) / total_threads in
    map (staged min_dst) (slice 0 (min chunk (length entries)) entries)
    ∷ map task_copies (assign entries min_dst chunk num_workers 0)

-- The turns say which thread makes its next copy; the caller returns when all have made theirs.
unfoldable pub parallel_gather : Memory → ℕ → List SgEntry → ℕ → List ℕ → Memory → Memory
unfolding in_turns thread_copies
parallel_gather host num_workers entries min_dst turns staging =
    copied_all host (in_turns turns (thread_copies num_workers entries min_dst)) staging

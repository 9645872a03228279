-- ===== src/Coalesce.antt =====
-- src/batch_processor.cpp: the tests for entries that lie side by side, and how such entries are merged
-- into one copy. Addresses and sizes are 64-bit words.
pub mod Sound
pub mod Tests
use gfd.Base.{ℕ, ◌+◌, Bool, true, ltb, ◌==◌, ◌&&◌, if◌then◌else◌, List, [], ◌∷◌, length}
use gfd.Queue.{add64}
use gfd.Driver.{SgEntry}

-- `d_contig` and `s_contig` of an entry and the one before it.
unfoldable pub follows : SgEntry → SgEntry → Bool
follows e prev = (e.dst == add64 prev.dst prev.size) && (e.src == add64 prev.src prev.size)

-- The loop that clears `fully_contiguous` at the first entry that does not follow.
unfoldable pub contiguous_after : SgEntry → List SgEntry → Bool
contiguous_after prev [] = true
contiguous_after prev (e ∷ es) = follows e prev && contiguous_after e es

-- `for (...) bytes += entries[i].size`
unfoldable pub sum_bytes : ℕ → List SgEntry → ℕ
sum_bytes bytes [] = bytes
sum_bytes bytes (e ∷ es) = sum_bytes (add64 bytes e.size) es

-- What is submitted for the entries of one tile or list: one copy if they are contiguous, else each.
unfoldable pub group_copies : List SgEntry → List SgEntry
unfolding contiguous_after sum_bytes
group_copies [] = []
group_copies (e ∷ es) =
    if ltb 1 (length (e ∷ es)) && contiguous_after e es
    then record e { size = sum_bytes 0 (e ∷ es) } ∷ []
    else e ∷ es

-- The greedy loop of process_batch: `prev` is the last entry of `coalesced`.
unfoldable pub coalesce_after : SgEntry → List SgEntry → List SgEntry
unfolding follows
coalesce_after prev [] = prev ∷ []
coalesce_after prev (e ∷ es) =
    let longer = coalesce_after (record prev { size = add64 prev.size e.size }) es in
    let next = coalesce_after e es in if follows e prev then longer else prev ∷ next

unfoldable pub coalesce : List SgEntry → List SgEntry
coalesce [] = []
coalesce (e ∷ es) = coalesce_after e es

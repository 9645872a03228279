-- ===== src/StagingPool.antt =====
-- include/gfd/staging_pool.h: the pool of staging buffer sets. The mutex makes each method one step.
-- Whether the memory of a buffer could be mapped, registered or allocated is a parameter.
pub mod Handout
pub mod Failures
pub mod Tests
use gfd.Base.{
  ℕ, zero, suc, ◌+◌, ◌-◌, ◌/◌, ◌*◌, ◌%◌, ◌^◌, Bool, true, false, ltb, leb, ◌==◌, ◌&&◌, ◌||◌, not,
  if◌then◌else◌, Option, none, some, update, List, [], ◌∷◌, ◌++◌,
}

abbrev pub max_buffer_sets : ℕ
max_buffer_sets = 8

abbrev pub bufs_per_set : ℕ
bufs_per_set = 5

-- `bufs` says which pointers are not null.
pub record BufferSet : Type 0 where
  pub bufs : ℕ → Bool
  pub buf_size : ℕ
  pub hp_size : ℕ
  pub hugepage : Bool
  pub in_use : Bool
  pub numa_node : ℕ

-- A `num_gpus` below 0 is no size of a pool; the model starts at 0.
pub record Pool : Type 0 where
  pub initialized : Bool
  pub num_sets : ℕ
  pub buf_size : ℕ
  pub sets : ℕ → BufferSet

-- How the memory of one buffer was obtained, if it was.
pub data Source : Type 0 where
  huge_page plain refused : Source

-- `(buf_size + (2M - 1)) & ~(2M - 1)`
abbrev pub round_up : ℕ → ℕ
round_up buf_size =
    (buf_size + (2 * 1024 * 1024 - 1)) % 2 ^ 64 / (2 * 1024 * 1024) * (2 * 1024 * 1024)

abbrev pub with_buffer : ℕ → Bool → BufferSet → BufferSet
with_buffer b huge set = record set { bufs = update set.bufs b true; hugepage = huge }

-- The loop over the buffers of one set: the set after it, and `set_ok`.
unfoldable pub fill_set : (ℕ → Source) → ℕ → ℕ → BufferSet → BufferSet × Bool
fill_set source zero b set = (set, true)
fill_set source (suc n) b set = elim (source b) [
  | huge_page ↦ fill_set source n (b + 1) (with_buffer b true set)
  | plain ↦ fill_set source n (b + 1) (with_buffer b false set)
  | refused ↦ (set, false)
]

-- The loop over the sets: the sets after it, and `total_allocated`.
unfoldable pub fill_sets :
    (ℕ → ℕ → Source) → ℕ → ℕ → ℕ → ℕ → (ℕ → BufferSet) → ℕ → (ℕ → BufferSet) × ℕ
unfolding fill_set
fill_sets source zero s buf_size numa sets total = (sets, total)
fill_sets source (suc n) s buf_size numa sets total =
    let set = record (sets s) {
      buf_size = buf_size;
      hp_size = round_up buf_size;
      in_use = false;
      numa_node = numa;
    } in
    let r = fill_set (source s) bufs_per_set 0 set in
    fill_sets source n (s + 1) buf_size numa (update sets s r.0) (if r.1 then total + 1 else total)

unfoldable pub init : (ℕ → ℕ → Source) → ℕ → ℕ → ℕ → Pool → Bool × Pool
unfolding fill_sets
init source num_gpus buf_size numa_node pool =
    let num = if ltb max_buffer_sets num_gpus then max_buffer_sets else num_gpus in
    let r = fill_sets source num 0 buf_size numa_node pool.sets 0 in
    if pool.initialized then (true, pool) else (
      ltb 0 r.1,
      record pool { initialized = true; num_sets = num; buf_size = buf_size; sets = r.0 },
    )

-- The loop over the sets from `s` on, `n` of them.
unfoldable pub acquire_from : ℕ → ℕ → ℕ → Pool → Option ℕ × Pool
acquire_from zero s required_size pool = (none, pool)
acquire_from (suc n) s required_size pool =
    let rest = acquire_from n (s + 1) required_size pool in
    if not (pool.sets s).in_use && leb required_size (pool.sets s).buf_size
    then (
      some s,
      record pool { sets = update pool.sets s (record (pool.sets s) { in_use = true }) },
    )
    else rest

-- `none` is -1.
unfoldable pub acquire_buffers : ℕ → Pool → Option ℕ × Pool
unfolding acquire_from
acquire_buffers required_size pool =
    if not pool.initialized then (none, pool) else acquire_from pool.num_sets 0 required_size pool

unfoldable pub release_buffers : Option ℕ → Pool → Pool
release_buffers none pool = pool
release_buffers (some s) pool =
    if ltb s pool.num_sets
    then record pool { sets = update pool.sets s (record (pool.sets s) { in_use = false }) }
    else pool

-- The buffers, their size and their kind, or nothing for an index that is out of range.
unfoldable pub get_buffers : Option ℕ → Pool → Option ((ℕ → Bool) × ℕ × Bool)
get_buffers none pool = none
get_buffers (some s) pool =
    if ltb s pool.num_sets
    then some ((pool.sets s).bufs, (pool.sets s).buf_size, (pool.sets s).hugepage)
    else none

-- The calls that give memory back, oldest first.
pub data Free : Type 0 where
  unmap : ℕ → ℕ → Free
  free_host : ℕ → ℕ → Free

-- The buffers of one set from `b` on, `n` of them: the calls, and the set after them.
unfoldable pub clear_set : ℕ → ℕ → ℕ → BufferSet → List Free × BufferSet
clear_set s zero b set = ([], set)
clear_set s (suc n) b set =
    let freed = clear_set s n (b + 1) (record set { bufs = update set.bufs b false }) in
    let skipped = clear_set s n (b + 1) set in
    if set.bufs b
    then ((if set.hugepage then unmap s b else free_host s b) ∷ freed.0, freed.1)
    else skipped

unfoldable pub clear_sets : ℕ → ℕ → (ℕ → BufferSet) → List Free × (ℕ → BufferSet)
unfolding clear_set
clear_sets zero s sets = ([], sets)
clear_sets (suc n) s sets =
    let r = clear_set s bufs_per_set 0 (sets s) in
    let rest = clear_sets n (s + 1) (update sets s r.1) in (r.0 ++ rest.0, rest.1)

unfoldable pub shutdown : Pool → List Free × Pool
unfolding clear_sets
shutdown pool =
    let r = clear_sets pool.num_sets 0 pool.sets in
    if not pool.initialized
    then ([], pool)
    else (r.0, record pool { initialized = false; sets = r.1 })

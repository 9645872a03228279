-- ===== src/DirectSubmit.antt =====
-- src/direct_submit.cpp, submit_direct: a submission past the ring, on the caller's thread, with a manager
-- of its own and the staging buffers of the polling thread. It waits for its copies before it returns.
pub mod Chunks
pub mod Pipeline
pub mod Piped
pub mod Ways
pub mod Copies
pub mod Tests
use gfd.Base.{
  ℕ, zero, suc, ◌+◌, ◌-◌, ◌*◌, ◌/◌, ◌%◌, min, Bool, true, false, ltb, leb, ◌==◌, ◌&&◌, ◌||◌, not,
  if◌then◌else◌, update, List, [], ◌∷◌, length, slice,
}
use gfd.Queue.{add64}
use gfd.Driver.{Driver, SgEntry, staging_event, event_synchronize}
use gfd.Memory.{Memory}
use gfd.CopyEngine.{
  Manager, CuResult, success, error, init, ignore, pin_context, unpin_context, wait_completion,
  record_event_on_last_stream,
}
use gfd.Coalesce.{sum_bytes}
use gfd.Gather.{gather_entries}
use gfd.Poller.{submit}
use gfd.Staging.{dst_after, src_after, gathered}
use gfd.ProcessBatch.{BatchPoller}

abbrev pub pipeline_min_entries : ℕ
pipeline_min_entries = 512

abbrev pub pipeline_chunks : ℕ
pipeline_chunks = 3

-- `direct_ce_manager_`, and the part of the polling thread that is shared; the manager of `base` is not
-- used here.
pub record DirectSubmitter : Type 0 where
  pub direct_ce : Manager
  pub base : BatchPoller

abbrev pub with_ce : Manager → DirectSubmitter → DirectSubmitter
with_ce m p = record p { direct_ce = m }

-- The gather on the calling thread alone.
unfoldable pub gathered_serially : Memory → ℕ → ℕ → List SgEntry → ℕ → Memory
unfolding gather_entries
gathered_serially host staging size entries min_dst a =
    if leb staging a && ltb a (staging + size)
    then gather_entries host min_dst entries (λ q. host (staging + q)) (a - staging)
    else host a

unfoldable pub gather_chunk : ℕ → SgEntry → List SgEntry → DirectSubmitter → DirectSubmitter
gather_chunk b e es p = record p {
  base = record (p.base) {
    host =
        gathered p.base.host p.base.active_gather_workers (p.base.staging_bufs b)
          p.base.staging_buffer_size (e ∷ es) e.dst;
  };
}

module _ (drv : Driver) where
  unfoldable pub submit_directly : List SgEntry → DirectSubmitter → DirectSubmitter
  submit_directly es p = with_ce (submit drv es p.direct_ce) p

  -- One copy out of the buffer `b`, filled before.
  unfoldable pub submit_buffer : ℕ → SgEntry → List SgEntry → DirectSubmitter → DirectSubmitter
  unfolding submit_directly
  submit_buffer b e es p =
      submit_directly
        (record { dst = e.dst; src = p.base.staging_bufs b; size = sum_bytes e.size es } ∷ []) p

  -- `c >= num_staging_bufs_`: the buffer comes round again.
  unfoldable pub wait_for_chunk : ℕ → DirectSubmitter → DirectSubmitter
  unfolding ignore
  wait_for_chunk c p =
      let b = c % p.base.num_staging_bufs in
      if leb p.base.num_staging_bufs c && p.base.staging_event_pending b
      then record p {
        direct_ce = (ignore drv (event_synchronize (staging_event b)) p.direct_ce).1;
        base = record (p.base) {
          staging_event_pending = update p.base.staging_event_pending b false;
        };
      }
      else p

  unfoldable pub record_chunk : ℕ → DirectSubmitter → DirectSubmitter
  record_chunk b p = record p {
    direct_ce = (record_event_on_last_stream drv (staging_event b) p.direct_ce).1;
    base = record (p.base) { staging_event_pending = update p.base.staging_event_pending b true };
  }

  -- The chunk `c`, with entries `e ∷ es`. The last of the chunks records no event.
  unfoldable pub pipeline_chunk : ℕ → ℕ → List SgEntry → DirectSubmitter → DirectSubmitter
  unfolding wait_for_chunk gather_chunk submit_buffer record_chunk
  pipeline_chunk num_chunks c [] p = p
  pipeline_chunk num_chunks c (e ∷ es) p =
      let b = c % p.base.num_staging_bufs in
      let sent = submit_buffer b e es (gather_chunk b e es (wait_for_chunk c p)) in
      if ltb (c + 1) num_chunks then record_chunk b sent else sent

  -- `left` chunks from `c` on.
  unfoldable pub pipeline : ℕ → ℕ → ℕ → ℕ → List SgEntry → DirectSubmitter → DirectSubmitter
  unfolding pipeline_chunk
  pipeline zero c num_chunks per entries p = p
  pipeline (suc left) c num_chunks per entries p =
      let start = c * per in
      let end = min (start + per) (length entries) in
      let next =
        pipeline left (c + 1) num_chunks per entries
          (pipeline_chunk num_chunks c (slice start end entries) p) in
      if leb (length entries) start then p else next

  unfoldable pub submit_serially : SgEntry → List SgEntry → DirectSubmitter → DirectSubmitter
  unfolding submit_buffer
  submit_serially e es p = submit_buffer 0 e es (record p {
    base = record (p.base) {
      host =
          gathered_serially p.base.host (p.base.staging_bufs 0) p.base.staging_buffer_size (e ∷ es)
            e.dst;
    };
  })

  -- Destinations side by side, sources apart.
  unfoldable pub submit_gathered : SgEntry → List SgEntry → DirectSubmitter → DirectSubmitter
  unfolding pipeline submit_serially gather_chunk submit_buffer
  submit_gathered e es p =
      let count = length (e ∷ es) in
      let num_chunks = min pipeline_chunks p.base.num_staging_bufs in
      let per = (count + num_chunks - 1) / num_chunks in
      if leb pipeline_min_entries count
        && leb 2 p.base.num_staging_bufs
        && ltb 0 p.base.active_gather_workers
      then pipeline num_chunks 0 num_chunks per (e ∷ es) p
      else if leb 64 count && ltb 0 p.base.active_gather_workers
      then submit_buffer 0 e es (gather_chunk 0 e es p)
      else submit_serially e es p

  unfoldable pub submit_entries : List SgEntry → DirectSubmitter → DirectSubmitter
  unfolding submit_gathered submit_directly
  submit_entries [] p = p
  submit_entries (e ∷ es) p =
      let total_size = sum_bytes 0 (e ∷ es) in
      if dst_after e es && src_after e es && ltb 1 (length (e ∷ es))
      then submit_directly (record e { size = total_size } ∷ []) p
      else if dst_after e es
          && not (src_after e es)
          && ltb 0 p.base.num_staging_bufs
          && leb total_size p.base.staging_buffer_size
      then submit_gathered e es p
      else submit_directly (e ∷ es) p

  -- The wait, the end of all staging events, and the counters.
  unfoldable pub finish_direct : List SgEntry → DirectSubmitter → DirectSubmitter
  finish_direct entries p = record p {
    direct_ce = (unpin_context drv (wait_completion drv p.direct_ce).1).1;
    base = record (p.base) {
      staging_event_pending =
          λ b. if ltb b p.base.num_staging_bufs then false else p.base.staging_event_pending b;
      total_bytes_copied = add64 p.base.total_bytes_copied (sum_bytes 0 entries);
      descriptors_processed = add64 p.base.descriptors_processed (length entries);
      batches_submitted = add64 p.base.batches_submitted 1;
    };
  }

  abbrev pub after_pin :
      List SgEntry → CuResult (Unit {0}) × Manager → DirectSubmitter → DirectSubmitter × Bool
  after_pin entries (success _, m) p =
      (finish_direct entries (submit_entries entries (with_ce m p)), true)
  after_pin entries (error c, m) p = (with_ce m p, false)

  -- The result says whether a time is returned, or -1.
  unfoldable pub submit_direct : List SgEntry → DirectSubmitter → DirectSubmitter × Bool
  unfolding submit_entries finish_direct
  submit_direct entries p =
      if not p.direct_ce.initialized || (length entries == 0)
      then (p, false)
      else after_pin entries (pin_context drv p.direct_ce) p

abbrev pub after_init : CuResult (Unit {0}) × Manager → DirectSubmitter → DirectSubmitter × Bool
after_init (success _, m) p = (with_ce m p, true)
after_init (error c, m) p = (with_ce m p, false)

-- `has_context` says whether cuCtxGetCurrent succeeds with a context.
unfoldable pub init_direct_ce : Driver → Bool → Bool → ℕ → DirectSubmitter → DirectSubmitter × Bool
init_direct_ce drv use_ce has_context num_ce_channels p =
    if not use_ce
    then (p, false)
    else if not has_context
    then (p, false)
    else after_init (init drv num_ce_channels p.direct_ce) p

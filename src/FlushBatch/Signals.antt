-- ===== src/FlushBatch/Signals.antt =====
-- What flush_batch and poll_tile_events signal for the tiles of a batch.
use gfd.Base.{
  ℕ, ◌+◌, ◌-◌, ◌%◌, ◌^◌, ◌<◌, ◌≤◌, ◌≡◌, ◌≢◌, refl, sym, ap, subst, ◌∙◌, Bool, true, false, arith,
  ltb, ◌&&◌, if◌then◌else◌, update, update_self, update_ne, none, List, [], ◌∷◌, length, if-eq_left,
  if-eq_right,
}
use gfd.Queue.{Descriptor, max_tiles, flag_last_in_tile}
use gfd.Driver.{Driver, SgEntry}
use gfd.ProcessBatch.{process_batch}
use gfd.ProcessBatch.NoCe.{process_batch_no_ce}
use gfd.Polling.{has_any}
use gfd.FlushBatch.{
  CpuPoller, PendingTileEvent, Marks, mark_tiles, count_tile, publish_event, poll_left,
  poll_tile_events, push_event, flush_global, flush_no_ce, flush_batch, tile_marker_flags, issued,
  is_some,
}
use gfd.FlushBatch.Progress.{
  HasLast, Names, mark_tiles-HasLast, publish_tiles-Names, signal_entries-tile_progress,
}

and_false : (b : Bool) → (b && false) ≡ false
and_false true = refl
and_false false = refl

-- The way without signals from the copy engine.
pub record IsGlobal (p : CpuPoller) : Type 0 where
  pub copies : p.use_ce ≡ true
  pub tiled : p.has_tiled_queue ≡ true
  pub no_lists : p.has_sg_queue ≡ false
  pub no_buffer : p.tile_signal_buf ≡ none

-- A batch with its event pushed.
record Pushed (batch : List Descriptor) (p p' : CpuPoller) : Type 0 where
  event : PendingTileEvent
  progress :
      (t : ℕ)
      → t < max_tiles
      → p.tile_progress t + count_tile t batch < 2 ^ 64
      → HasLast t batch
      → (p'.tile_progress t ≡ p.tile_progress t + count_tile t batch) × Names t event.tile_ids
  events : p'.pending_tile_events ≡ update p.pending_tile_events p.tile_event_head event
  head : p'.tile_event_head ≡ (p.tile_event_head + 1) % 32
  tail : p'.tile_event_tail ≡ p.tile_event_tail
  inflight : p'.tile_events_inflight ≡ p.tile_events_inflight + 1
  still : IsGlobal p'

module _ (drv : Driver) (done_address buf_address list_done_address list_buf_address : ℕ → ℕ)
    (std_sort : (SgEntry → ℕ) → List SgEntry → List SgEntry) (unset : ℕ → Descriptor)
    (unset_entry : ℕ → SgEntry) where
  abbrev flush_with : List Descriptor → ℕ → ℕ → CpuPoller → CpuPoller
  flush_with =
      flush_batch drv done_address buf_address list_done_address list_buf_address std_sort unset
        unset_entry

  no_ce-path :
      (d : Descriptor) (ds : List Descriptor) (or_flags cur_read : ℕ) (p : CpuPoller)
      → p.use_ce ≡ false
      → flush_with (d ∷ ds) or_flags cur_read p
        ≡ flush_no_ce std_sort
            (d ∷ ds)
            (p.has_tiled_queue && has_any or_flags tile_marker_flags)
            cur_read
            p
  unfolding flush_batch
  no_ce-path d ds or_flags cur_read p host = if-eq_right _ _ host

  no_ce-count :
      (batch : List Descriptor) (marked : Bool) (cur_read t : ℕ) (p : CpuPoller)
      → t < max_tiles
      → p.tile_progress t + length batch < 2 ^ 64
      → (flush_no_ce std_sort batch marked cur_read p).tile_progress t
        ≡ p.tile_progress t + (if marked then count_tile t batch else 0)
  unfolding flush_no_ce
  no_ce-count batch true cur_read t p lt fits =
      signal_entries-tile_progress t batch
        (record p { base = process_batch_no_ce std_sort batch p.base; done_idx = cur_read }) lt fits
  no_ce-count batch false cur_read t p lt fits = omega arith

  -- Without copy engines the progress of a tile grows by its entries in the batch if the `or_flags` that
  -- the batch is flushed with have a tile marker, and not at all if they have none, whatever markers its
  -- entries have themselves.
  pub no_ce-tile_progress :
      (d : Descriptor) (ds : List Descriptor) (or_flags cur_read t : ℕ) (p : CpuPoller)
      → p.use_ce ≡ false
      → p.has_tiled_queue ≡ true
      → t < max_tiles
      → p.tile_progress t + length (d ∷ ds) < 2 ^ 64
      → (flush_with (d ∷ ds) or_flags cur_read p).tile_progress t
        ≡ p.tile_progress t
          + (if has_any or_flags tile_marker_flags then count_tile t (d ∷ ds) else 0)
  no_ce-tile_progress d ds or_flags cur_read t p host tiled lt fits =
      ap (λ (q : CpuPoller). q.tile_progress t) (no_ce-path d ds or_flags cur_read p host)
      ∙ ap
          (λ b.
            (flush_no_ce std_sort (d ∷ ds) (b && has_any or_flags tile_marker_flags) cur_read
                p).tile_progress
              t)
          tiled
      ∙ no_ce-count (d ∷ ds) (has_any or_flags tile_marker_flags) cur_read t p lt fits

  global-path :
      (d : Descriptor) (ds : List Descriptor) (or_flags cur_read : ℕ) (p : CpuPoller)
      → IsGlobal p
      → has_any or_flags tile_marker_flags ≡ true
      → flush_with (d ∷ ds) or_flags cur_read p
        ≡ push_event drv (d ∷ ds) cur_read (
            issued cur_read
              (record p { base = process_batch drv std_sort unset_entry (d ∷ ds) p.base }))
  unfolding flush_batch flush_global
  global-path d ds or_flags cur_read p g marked =
      if-eq_left _ _ g.copies
      ∙ if-eq_right _ _ (ap (λ b. b && has_any or_flags flag_last_in_tile) g.no_lists)
      ∙ if-eq_right _ _
          (ap (λ o. p.has_tiled_queue && is_some o) g.no_buffer ∙ and_false p.has_tiled_queue)
      ∙ if-eq_left _ _ (ap (λ b. b && has_any or_flags tile_marker_flags) g.tiled ∙ marked)

  flush_with-Pushed :
      (d : Descriptor) (ds : List Descriptor) (or_flags cur_read : ℕ) (p : CpuPoller)
      → IsGlobal p
      → has_any or_flags tile_marker_flags ≡ true
      → length (d ∷ ds) ≤ max_tiles
      → Pushed (d ∷ ds) p (flush_with (d ∷ ds) or_flags cur_read p)
  unfolding push_event
  flush_with-Pushed d ds or_flags cur_read p g marked few =
      let batch = d ∷ ds in
      let first : Marks = record {
        counts = λ t. count_tile t batch;
        progress = p.tile_progress;
        tile_ids = [];
      } in
      let m = mark_tiles batch first in
      subst (Pushed batch p) (sym (global-path d ds or_flags cur_read p g marked)) (record {
        event = record { created = true; done_value = cur_read; tile_ids = m.tile_ids };
        progress = λ t lt fits last.
            let a =
              mark_tiles-HasLast t (p.tile_progress t + count_tile t batch) batch first lt fits
                (omega arith) refl last in
            (a.0, a.2);
        events = refl;
        head = refl;
        tail = refl;
        inflight = refl;
        still = record {
          copies = g.copies;
          tiled = g.tiled;
          no_lists = g.no_lists;
          no_buffer = g.no_buffer;
        };
      })

-- One event at the tail is done and the next is not: the poll publishes the first and stops.
poll_one :
    (ready : ℕ → Bool) (p : CpuPoller)
    → p.tile_events_inflight ≡ 2
    → ready p.tile_event_tail ≡ true
    → ready ((p.tile_event_tail + 1) % 32) ≡ false
    → poll_tile_events ready p
      ≡ record (publish_event p) { has_async_dma = ltb 0 (publish_event p).tile_events_inflight }
unfolding poll_tile_events poll_left publish_event
poll_one ready p two first second =
    ap (λ n. poll_left ready n p) two ∙ if-eq_left _ _ first ∙ if-eq_right _ _ second

publish_event-facts :
    (p : CpuPoller) (t : ℕ)
    → Names t (p.pending_tile_events p.tile_event_tail).tile_ids
    → ((publish_event p).tile_done t ≡ p.tile_progress t)
      × ((publish_event p).tile_events_inflight ≡ p.tile_events_inflight - 1)
unfolding publish_event
publish_event-facts p t m = (
  publish_tiles-Names t (p.pending_tile_events p.tile_event_tail).tile_ids p.tile_progress
      p.tile_done m,
  refl,
)

module _ (drv : Driver) (done_address buf_address list_done_address list_buf_address : ℕ → ℕ)
    (std_sort : (SgEntry → ℕ) → List SgEntry → List SgEntry) (unset : ℕ → Descriptor)
    (unset_entry : ℕ → SgEntry) where
  -- Where no tile signal buffer could be had: of two batches with the last entry of one tile, when the
  -- event of the first is done and that of the second is not, the poll counts the entries of both
  -- as done for the tile, and the event of the second is still pending.
  pub early_signal :
      (c d : Descriptor) (cs ds : List Descriptor) (or_flags or_flags' read read' t : ℕ)
      (ready : ℕ → Bool) (p : CpuPoller)
      → IsGlobal p
      → has_any or_flags tile_marker_flags ≡ true
      → has_any or_flags' tile_marker_flags ≡ true
      → length (c ∷ cs) ≤ max_tiles
      → length (d ∷ ds) ≤ max_tiles
      → HasLast t (c ∷ cs)
      → HasLast t (d ∷ ds)
      → t < max_tiles
      → p.tile_progress t + count_tile t (c ∷ cs) + count_tile t (d ∷ ds) < 2 ^ 64
      → p.tile_events_inflight ≡ 0
      → p.tile_event_head ≡ p.tile_event_tail
      → p.tile_event_head < 32
      → ready p.tile_event_tail ≡ true
      → ready ((p.tile_event_tail + 1) % 32) ≡ false
      → let flush =
          flush_batch drv done_address buf_address list_done_address list_buf_address std_sort unset
            unset_entry in
        let q =
          poll_tile_events ready
            (flush (d ∷ ds) or_flags' read' (flush (c ∷ cs) or_flags read p)) in
        (q.tile_done t ≡ p.tile_progress t + count_tile t (c ∷ cs) + count_tile t (d ∷ ds))
        × (q.tile_events_inflight ≡ 1)
  early_signal c d cs ds or_flags or_flags' read read' t ready p g marked marked' few few' last
        last' lt fits none_yet at small first second =
      let flush =
        flush_batch drv done_address buf_address list_done_address list_buf_address std_sort unset
          unset_entry in
      let p1 = flush (c ∷ cs) or_flags read p in
      let p2 = flush (d ∷ ds) or_flags' read' p1 in
      let f1 =
        flush_with-Pushed drv done_address buf_address list_done_address list_buf_address std_sort
          unset unset_entry c cs or_flags read p g marked few in
      let f2 =
        flush_with-Pushed drv done_address buf_address list_done_address list_buf_address std_sort
          unset unset_entry d ds or_flags' read' p1 f1.still marked' few' in
      let a1 = f1.progress t lt (omega arith) last in
      let a2 = f2.progress t lt (omega (arith, a1.0)) last' in
      let tail : p2.tile_event_tail ≡ p.tile_event_tail = f2.tail ∙ f1.tail in
      let two : p2.tile_events_inflight ≡ 2 = omega (arith, f1.inflight, f2.inflight) in
      let apart : p1.tile_event_head ≢ p.tile_event_head = λ same. omega (arith, f1.head) in
      let old : p2.pending_tile_events p2.tile_event_tail ≡ f1.event =
        ap p2.pending_tile_events (tail ∙ sym at)
        ∙ ap (λ f. f p.tile_event_head) f2.events
        ∙ update_ne p1.pending_tile_events p1.tile_event_head p.tile_event_head f2.event apart
        ∙ ap (λ f. f p.tile_event_head) f1.events
        ∙ update_self p.pending_tile_events p.tile_event_head f1.event in
      let named : Names t (p2.pending_tile_events p2.tile_event_tail).tile_ids =
        subst (λ e. Names t e.tile_ids) (sym old) a1.1 in
      let done = publish_event-facts p2 t named in
      let polled =
        poll_one ready p2 two (ap ready tail ∙ first)
          (ap (λ k. ready ((k + 1) % 32)) tail ∙ second) in
      (
        ap (λ (q : CpuPoller). q.tile_done t) polled ∙ done.0 ∙ a2.0 ∙ omega (arith, a1.0),
        ap (λ (q : CpuPoller). q.tile_events_inflight) polled ∙ done.1 ∙ omega (arith, two),
      )

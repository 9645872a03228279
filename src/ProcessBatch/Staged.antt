-- ===== src/ProcessBatch/Staged.antt =====
-- What a submission of process_batch leaves behind, directly and out of a staging buffer.
use gfd.Base.{
  ℕ, ◌+◌, ◌%◌, ◌^◌, ◌<◌, ◌≡◌, refl, sym, ap, ◌∙◌, true, arith, ltb, ◌&&◌, inl, inr, List, [], ◌∷◌,
  length, Bool-cases,
}
use gfd.Queue.{add64, mul64}
use gfd.Driver.{Driver, Succeeds, SgEntry}
use gfd.Memory.{Memory, copied_all}
use gfd.CopyEngine.Submit.{IsValid}
use gfd.Coalesce.{sum_bytes, group_copies, contiguous_after}
use gfd.Coalesce.Sound.{AllInRange, and_entry, group_copies-copied}
use gfd.Staging.{dst_contiguous, src_after, gathered}
use gfd.Staging.Whole.{dst_contiguous-sum_bytes, both_after}
use gfd.ProcessBatch.{
  BatchPoller, cur_buf, count_batch, submit_copies, wait_for_buffer, gather_batch, submit_staged,
}
use gfd.ProcessBatch.Issued.{Sends, submit-Sends, synchronize-Sends, record_event-Sends}

-- The manager is ready, the current buffer is one of the buffers, and none wraps around.
pub record IsReady (p : BatchPoller) : Type 0 where
  pub valid : IsValid p.ce
  pub ready : p.ce.initialized ≡ true
  pub current : 0 < p.num_staging_bufs → p.staging_cur < p.num_staging_bufs
  pub room : (b : ℕ) → b < p.num_staging_bufs → p.staging_bufs b + p.staging_buffer_size < 2 ^ 64

-- Copies were issued which, out of the host memory and its staging buffers as they are now, leave the
-- memory that copying the entries `es` out of the host memory before leaves.
pub record Issued (es : List SgEntry) (p p' : BatchPoller) : Type 0 where
  pub sent : List SgEntry
  pub sends : Sends sent p.ce p'.ce
  pub memory : (device : Memory) → copied_all p'.host sent device ≡ copied_all p.host es device
  pub kept : IsReady p'

pub count_batch-Issued :
    (count coalesced : ℕ) (es : List SgEntry) (p p' : BatchPoller)
    → Issued es p p'
    → Issued es p (count_batch count coalesced p')
unfolding count_batch
count_batch-Issued count coalesced es p p' i = record {
  sent = i.sent;
  sends = i.sends;
  memory = i.memory;
  kept = record {
    valid = i.kept.valid;
    ready = i.kept.ready;
    current = i.kept.current;
    room = i.kept.room;
  };
}

pub uncount-Issued :
    (n : ℕ) (es : List SgEntry) (p p' : BatchPoller)
    → Issued es (record p { total_bytes_copied = n }) p'
    → Issued es p p'
uncount-Issued n es p p' i = record {
  sent = i.sent;
  sends = i.sends;
  memory = i.memory;
  kept = i.kept;
}

pub counted-IsReady :
    (n : ℕ) (p : BatchPoller) → IsReady p → IsReady (record p { total_bytes_copied = n })
counted-IsReady n p k = record {
  valid = k.valid;
  ready = k.ready;
  current = k.current;
  room = k.room;
}

-- The merged copy of entries that lie side by side.
pub grouped :
    (e : SgEntry) (es : List SgEntry)
    → (ltb 1 (length (e ∷ es)) && contiguous_after e es) ≡ true
    → record e { size = sum_bytes 0 (e ∷ es) } ∷ [] ≡ group_copies (e ∷ es)
unfolding group_copies
grouped e es h = rw h refl

-- One copy of `count * entry_size` bytes, where the sources follow one another too.
pub one_copy :
    (host device : Memory) (e : SgEntry) (es : List SgEntry)
    → AllInRange (e ∷ es)
    → 0 < length es
    → dst_contiguous (add64 e.dst e.size) e.size es ≡ true
    → src_after e es ≡ true
    → copied_all host (record e { size = mul64 (length (e ∷ es)) e.size } ∷ []) device
      ≡ copied_all host (e ∷ es) device
unfolding group_copies sum_bytes
one_copy host device e es (and_entry r rs) more d s =
    let w = dst_contiguous-sum_bytes e es (and_entry r rs) d in
    let both = both_after e es w.0 s in
    let joined : (ltb 1 (length (e ∷ es)) && contiguous_after e es) ≡ true =
      ground (arith, more, both) in
    let first : add64 0 e.size ≡ e.size = omega (arith, r.dst_ends) in
    ap (λ n. copied_all host (record e { size = n } ∷ []) device)
      (w.1 ∙ ap (λ n. sum_bytes n es) (sym first))
    ∙ ap (λ l. copied_all host l device) (grouped e es joined)
    ∙ group_copies-copied host device (e ∷ es) (and_entry r rs)

module _ (drv : Driver) (ok : Succeeds drv) where
  pub submit_copies-Issued :
      (cs es : List SgEntry) (p : BatchPoller)
      → IsReady p
      → ((device : Memory) → copied_all p.host cs device ≡ copied_all p.host es device)
      → Issued es p (submit_copies drv cs p)
  unfolding submit_copies
  submit_copies-Issued cs es p k same =
      let s = submit-Sends drv ok cs p.ce k.valid k.ready in
      record {
        sent = cs;
        sends = s;
        memory = same;
        kept = record { valid = s.valid; ready = s.ready; current = k.current; room = k.room };
      }

  -- Out of a buffer: the copies `runs` of the gathered entries `es`.
  pub staged-Issued :
      (es runs : List SgEntry) (min_dst : ℕ) (target : List SgEntry) (p : BatchPoller)
      → IsReady p
      → 0 < p.num_staging_bufs
      → ((device : Memory)
          → copied_all
              (gathered p.host p.active_gather_workers (cur_buf p) p.staging_buffer_size es min_dst)
              runs
              device
            ≡ copied_all p.host target device)
      → Issued target p (submit_staged drv runs (gather_batch es min_dst (wait_for_buffer drv p)))
  unfolding submit_staged gather_batch wait_for_buffer
  staged-Issued es runs min_dst target p k some same =
      let next : (p.staging_cur + 1) % p.num_staging_bufs < p.num_staging_bufs = grind arith in
      elim (Bool-cases (p.staging_event_pending p.staging_cur)) [
        | inl pending ↦
            let w = synchronize-Sends drv p.staging_cur p.ce k.valid k.ready in
            let s = submit-Sends drv ok runs _ w.valid w.ready in
            let e = record_event-Sends drv ok p.staging_cur runs _ _ s in
            rw pending (record {
              sent = runs;
              sends = record { valid = e.valid; ready = e.ready; copied = e.copied };
              memory = same;
              kept = record {
                valid = e.valid;
                ready = e.ready;
                current = λ h. next;
                room = k.room;
              };
            })
        | inr free ↦
            let s = submit-Sends drv ok runs p.ce k.valid k.ready in
            let e = record_event-Sends drv ok p.staging_cur runs _ _ s in
            rw free (record {
              sent = runs;
              sends = e;
              memory = same;
              kept = record {
                valid = e.valid;
                ready = e.ready;
                current = λ h. next;
                room = k.room;
              };
            })
      ]

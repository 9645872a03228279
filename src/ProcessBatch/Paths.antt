-- ===== src/ProcessBatch/Paths.antt =====
-- Each way of process_batch leaves the memory that copying the entries of the batch one by one leaves.
use gfd.Base.{
  ℕ, ◌+◌, ◌^◌, ◌<◌, ◌≤◌, ◌≡◌, refl, ◌∙◌, true, arith, ltb, leb, ◌==◌, ◌&&◌, ◌||◌, inl, inr, List,
  [], ◌∷◌, length, map, Bool-cases,
}
use gfd.Queue.{Descriptor, add64, sub64, mul64}
use gfd.Driver.{Driver, Succeeds, SgEntry}
use gfd.Memory.{Memory, copied_all}
use gfd.Memory.Cover.{SameEntries, NoClash, SameEntries-copied, SameEntries-covered}
use gfd.Coalesce.{sum_bytes, coalesce}
use gfd.Coalesce.Sound.{
  AllInRange, AllInRange-In, In-AllInRange, coalesce-copied, coalesce-AllInRange,
}
use gfd.Batch.{sg_of}
use gfd.RadixSort.{radix_sort_sg}
use gfd.RadixSort.Entries.{KeepsEntries, radix_sort_sg-SameEntries}
use gfd.Staging.{dst_contiguous, src_after, least_dst, greatest_end, gathered, merge_runs}
use gfd.Staging.Runs.{merge_runs-copied}
use gfd.Staging.Whole.{whole-copied, dst_contiguous-sum_bytes}
use gfd.Staging.Range.{range-Within}
use gfd.ProcessBatch.{
  BatchPoller, cur_buf, runs_of, stage_coalesced, submit_coalesced, submit_sorted,
  submit_contiguous, process_batch, staging_threshold,
}
use gfd.ProcessBatch.Staged.{
  IsReady, Issued, count_batch-Issued, uncount-Issued, counted-IsReady, one_copy,
  submit_copies-Issued, staged-Issued,
}

module _ (drv : Driver) (ok : Succeeds drv) where
  module _ (std_sort : (SgEntry → ℕ) → List SgEntry → List SgEntry) (keeps : KeepsEntries std_sort)
      (unset : ℕ → SgEntry) where
    -- The runs of sorted entries.
    sorted_runs-copied :
        (host device : Memory) (num_workers buf size : ℕ) (c : SgEntry) (cs sorted : List SgEntry)
        → AllInRange (c ∷ cs)
        → sub64 (greatest_end (add64 c.dst c.size) cs) (least_dst c.dst cs) ≤ size
        → buf + size < 2 ^ 64
        → SameEntries sorted (c ∷ cs)
        → let min_dst = least_dst c.dst cs in
          let runs = elim sorted as (λ _. List SgEntry) [
            | [] ↦ []
            | f ∷ fs ↦ merge_runs buf min_dst f.dst f.size fs
          ] in
          copied_all (gathered host num_workers buf size (c ∷ cs) min_dst) runs device
          ≡ copied_all host (c ∷ cs) device
    sorted_runs-copied host device num_workers buf size c cs [] r fits room s =
        absurd (s.back c (inl refl))
    sorted_runs-copied host device num_workers buf size c cs (f ∷ fs) r fits room s =
        let w = range-Within c cs r in
        let lo = least_dst c.dst cs in
        let hi = greatest_end (add64 c.dst c.size) cs in
        merge_runs-copied host num_workers buf size lo hi (c ∷ cs) (omega (arith, w.2, fits)) room
          w.1 w.0 f fs device (λ e m. w.0 e (s.there e m))
          (λ q. SameEntries-covered (f ∷ fs) (c ∷ cs) q s)

    stage_coalesced-Issued :
        (c : SgEntry) (cs : List SgEntry) (p : BatchPoller)
        → IsReady p
        → AllInRange (c ∷ cs)
        → 0 < p.num_staging_bufs
        → sub64 (greatest_end (add64 c.dst c.size) cs) (least_dst c.dst cs) ≤ p.staging_buffer_size
        → Issued (c ∷ cs) p (stage_coalesced drv std_sort unset (c ∷ cs) (least_dst c.dst cs) p)
    unfolding stage_coalesced runs_of
    stage_coalesced-Issued c cs p k r some fits =
        let sorted = radix_sort_sg (λ e. e.dst) std_sort unset (c ∷ cs) in
        let same = radix_sort_sg-SameEntries (λ e. e.dst) unset std_sort keeps (c ∷ cs) in
        let room = k.room p.staging_cur (k.current some) in
        staged-Issued drv ok (c ∷ cs) _ (least_dst c.dst cs) (c ∷ cs) p k some (λ device.
          sorted_runs-copied p.host device p.active_gather_workers (cur_buf p) p.staging_buffer_size
            c cs sorted r fits room same)

    submit_coalesced-Issued :
        (cs : List SgEntry) (p : BatchPoller)
        → IsReady p
        → AllInRange cs
        → Issued cs p (submit_coalesced drv std_sort unset cs p)
    unfolding submit_coalesced
    submit_coalesced-Issued [] p k r = record {
      sent = [];
      sends = record { valid = k.valid; ready = k.ready; copied = refl };
      memory = λ device. refl;
      kept = k;
    }
    submit_coalesced-Issued (c ∷ cs) p k r =
        let direct = submit_copies-Issued drv ok (c ∷ cs) (c ∷ cs) p k (λ device. refl) in
        let min_dst = least_dst c.dst cs in
        let range = sub64 (greatest_end (add64 c.dst c.size) cs) min_dst in
        elim (Bool-cases (ltb staging_threshold (length (c ∷ cs)) && ltb 0 p.num_staging_bufs)) [
          | inr few ↦ rw few direct
          | inl many ↦
              elim (Bool-cases (ltb p.staging_buffer_size range || (p.num_staging_bufs == 0))) [
                | inl large ↦ rw (many, large) direct
                | inr fits ↦
                    rw (many, fits)
                      (stage_coalesced-Issued c cs p k r (ground (arith, many))
                        (ground (arith, fits)))
              ]
        ]

    submit_sorted-Issued :
        (es : List SgEntry) (p : BatchPoller)
        → IsReady p
        → AllInRange es
        → NoClash es
        → Issued es p (submit_sorted drv std_sort unset es p)
    unfolding submit_sorted
    submit_sorted-Issued es p k r apart =
        let sorted = radix_sort_sg (λ e. e.src) std_sort unset es in
        let same = radix_sort_sg-SameEntries (λ e. e.src) unset std_sort keeps es in
        let r' = In-AllInRange sorted (λ e m. AllInRange-In es e r (same.there e m)) in
        let i = submit_coalesced-Issued (coalesce sorted) p k (coalesce-AllInRange sorted r') in
        count_batch-Issued (length es) (length (coalesce sorted)) es p
          (submit_coalesced drv std_sort unset (coalesce sorted) p)
          (record {
            sent = i.sent;
            sends = i.sends;
            memory = λ device.
                i.memory device
                ∙ coalesce-copied p.host device sorted r'
                ∙ SameEntries-copied p.host sorted es device same apart;
            kept = i.kept;
          })

    submit_contiguous-Issued :
        (e : SgEntry) (es : List SgEntry) (p : BatchPoller)
        → IsReady p
        → AllInRange (e ∷ es)
        → NoClash (e ∷ es)
        → 0 < length es
        → dst_contiguous (add64 e.dst e.size) e.size es ≡ true
        → Issued (e ∷ es) p (submit_contiguous drv std_sort unset e es p)
    unfolding submit_contiguous
    submit_contiguous-Issued e es p k r apart more d =
        let n = length (e ∷ es) in
        let range = mul64 n e.size in
        elim (Bool-cases (src_after e es)) [
          | inl whole ↦ rw whole (
              count_batch-Issued n 1 (e ∷ es) p _ (
                submit_copies-Issued drv ok (record e { size = range } ∷ []) (e ∷ es) p k
                  (λ device. one_copy p.host device e es r more d whole)))
          | inr apart_src ↦
              elim (Bool-cases (leb range p.staging_buffer_size && ltb 0 p.num_staging_bufs)) [
                | inr large ↦ rw (apart_src, large) (submit_sorted-Issued (e ∷ es) p k r apart)
                | inl fits ↦
                    let some : 0 < p.num_staging_bufs = ground (arith, fits) in
                    let w = dst_contiguous-sum_bytes e es r d in
                    let room = k.room p.staging_cur (k.current some) in
                    let small : range ≤ p.staging_buffer_size = ground (arith, fits) in
                    rw (apart_src, fits)
                      (count_batch-Issued n n (e ∷ es) p _ (
                        staged-Issued drv ok (e ∷ es) _ e.dst (e ∷ es) p k some (λ device.
                          rw (w.1) (
                            whole-copied p.host device p.active_gather_workers (cur_buf p)
                              p.staging_buffer_size e es r w.0 (omega (arith, w.1, small)) room))))
              ]
        ]

    -- Whichever way a batch takes, against a driver that reports no error, with a sort that keeps the
    -- entries and a manager and buffers that are ready: the copies issued for it leave the memory that
    -- copying its entries one by one leaves, where they read the staging buffers as filled now, no
    -- range wraps around, and entries that write to one address are the same. Everything stays ready.
    pub process_batch-Issued :
        (batch : List Descriptor) (p : BatchPoller)
        → IsReady p
        → AllInRange (map sg_of batch)
        → NoClash (map sg_of batch)
        → Issued (map sg_of batch) p (process_batch drv std_sort unset batch p)
    unfolding process_batch
    process_batch-Issued [] p k r apart = record {
      sent = [];
      sends = record { valid = k.valid; ready = k.ready; copied = refl };
      memory = λ device. refl;
      kept = k;
    }
    process_batch-Issued (d ∷ []) p k r apart =
        let one = record p { total_bytes_copied = add64 p.total_bytes_copied d.size } in
        let i =
          submit_copies-Issued drv ok (sg_of d ∷ []) (sg_of d ∷ []) one
            (counted-IsReady (add64 p.total_bytes_copied d.size) p k) (λ device. refl) in
        uncount-Issued (add64 p.total_bytes_copied d.size) (sg_of d ∷ []) p _
          (count_batch-Issued 1 1 (sg_of d ∷ []) one _ i)
    process_batch-Issued (d ∷ d' ∷ ds) p k r apart =
        let e = sg_of d in
        let es = map sg_of (d' ∷ ds) in
        let n = sum_bytes p.total_bytes_copied (e ∷ es) in
        let q = record p { total_bytes_copied = n } in
        let kq = counted-IsReady n p k in
        elim (Bool-cases
          (dst_contiguous (add64 e.dst e.size) e.size es && ltb 0 p.num_staging_bufs)) [
            | inl side ↦ rw side (
                uncount-Issued n (e ∷ es) p _
                  (submit_contiguous-Issued e es q kq r apart (omega arith) (ground (arith, side))))
            | inr other ↦
                rw other
                  (uncount-Issued n (e ∷ es) p _ (submit_sorted-Issued (e ∷ es) q kq r apart))
          ]

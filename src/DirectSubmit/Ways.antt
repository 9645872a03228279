-- ===== src/DirectSubmit/Ways.antt =====
-- Each way of a direct submission issues copies that leave what copying its entries leaves.
use gfd.Base.{
  ℕ, suc, ◌+◌, ◌-◌, ◌*◌, ◌/◌, ◌^◌, ◌≤◌, ◌<◌, ◌≡◌, refl, sym, ap, subst, fun_ext, ◌∙◌, true, arith,
  ltb, leb, ◌&&◌, not, inl, inr, if◌then◌else◌, Bool-cases, min, List, [], ◌∷◌, length, drop,
}
use native.Mathlib.Nat.{zero-mul}
use gfd.Queue.{add64}
use gfd.Driver.{Driver, Succeeds, SgEntry}
use gfd.Memory.{Memory, copied_all}
use gfd.Memory.Concurrent.{Carries, Carries-same, single-Carries}
use gfd.CopyEngine.Sent.{sum_sizes}
use gfd.CopyEngine.Submit.{IsValid}
use gfd.Coalesce.{sum_bytes, contiguous_after}
use gfd.Coalesce.Sound.{AllInRange, and_entry, group_copies-copied}
use gfd.Gather.Parts.{parallel_gather-in_order, ceiling}
use gfd.Staging.{dst_after, src_after, gathered}
use gfd.Staging.Whole.{whole-copied, both_after}
use gfd.ProcessBatch.Issued.{Sends, submit-Sends}
use gfd.ProcessBatch.Staged.{grouped}
use gfd.DirectSubmit.{
  DirectSubmitter, submit_directly, submit_buffer, gather_chunk, gathered_serially, pipeline,
  submit_serially, submit_gathered, submit_entries, pipeline_chunks, pipeline_min_entries,
}
use gfd.DirectSubmit.Chunks.{Side-sum_sizes, sum_bytes-sum_sizes}
use gfd.DirectSubmit.Pipeline.{Buffers, SourcesFree}
use gfd.DirectSubmit.Piped.{pipeline-Piped}

-- A chunk for each buffer, rounded up, is enough for all entries.
pipeline_enough : (count n : ℕ) → count ≤ (0 + suc n) * ((count + suc n - 1) / suc n)
pipeline_enough count n =
    let e : suc n ≡ n + 1 = omega arith in rw e (let h = ceiling count n in omega (arith, h))

total_size :
    (e : SgEntry) (es : List SgEntry)
    → e.dst + e.size < 2 ^ 64
    → sum_bytes 0 (e ∷ es) ≡ sum_bytes e.size es
unfolding sum_bytes
total_size e es h =
    let first : add64 0 e.size ≡ e.size = omega arith in ap (λ n. sum_bytes n es) first

-- Copies were issued which leave what copying the entries leaves.
pub record Gone (entries : List SgEntry) (p p' : DirectSubmitter) : Type 0 where
  pub sent : List SgEntry
  pub sends : Sends sent p.direct_ce p'.direct_ce
  pub memory :
      (device : Memory)
      → copied_all p'.base.host sent device ≡ copied_all p.base.host entries device
  pub carries : Carries p'.base.host sent p.base.host entries

serially-gathered :
    (host : Memory) (num_workers buf size : ℕ) (es : List SgEntry) (min_dst : ℕ)
    → gathered host num_workers buf size es min_dst ≡ gathered_serially host buf size es min_dst
unfolding gathered gathered_serially
serially-gathered host num_workers buf size es min_dst = fun_ext λ a.
    ap (λ (f : Memory). if leb buf a && ltb a (buf + size) then f (a - buf) else host a)
      (parallel_gather-in_order host num_workers es min_dst (λ q. host (buf + q)))

module _ (drv : Driver) (ok : Succeeds drv) (p : DirectSubmitter) (valid : IsValid p.direct_ce)
    (ready : p.direct_ce.initialized ≡ true) (buffers : Buffers p.base) where
  directly-Gone :
      (cs es : List SgEntry)
      → ((device : Memory) → copied_all p.base.host cs device ≡ copied_all p.base.host es device)
      → Carries p.base.host cs p.base.host es
      → Gone es p (submit_directly drv cs p)
  unfolding submit_directly
  directly-Gone cs es same carries = record {
    sent = cs;
    sends = submit-Sends drv ok cs p.direct_ce valid ready;
    memory = same;
    carries = carries;
  }

  module _ (e : SgEntry) (es : List SgEntry) (range : AllInRange (e ∷ es))
      (side : dst_after e es ≡ true) (some : 0 < p.base.num_staging_bufs)
      (fits : sum_bytes e.size es ≤ p.base.staging_buffer_size) where
    parallel-Gone : Gone (e ∷ es) p (submit_buffer drv 0 e es (gather_chunk 0 e es p))
    unfolding submit_buffer gather_chunk submit_directly
    parallel-Gone =
        let same = λ (device : Memory).
          whole-copied p.base.host device p.base.active_gather_workers (p.base.staging_bufs 0)
            p.base.staging_buffer_size e es range side fits (buffers.room 0 some) in
        record {
          sent = _;
          sends = submit-Sends drv ok _ p.direct_ce valid ready;
          memory = same;
          carries = single-Carries _ _ p.base.host (e ∷ es) same;
        }

    serially-Gone : Gone (e ∷ es) p (submit_serially drv e es p)
    unfolding submit_serially submit_buffer submit_directly
    serially-Gone =
        let same = λ (device : Memory).
          ap
            (λ (m : Memory).
              copied_all m
                (record { dst = e.dst; src = p.base.staging_bufs 0; size = sum_bytes e.size es }
                  ∷ [])
                device)
            (sym (
              serially-gathered p.base.host 0 (p.base.staging_bufs 0) p.base.staging_buffer_size
                (e ∷ es) e.dst))
          ∙ whole-copied p.base.host device 0 (p.base.staging_bufs 0) p.base.staging_buffer_size e
              es range side fits (buffers.room 0 some) in
        record {
          sent = _;
          sends = submit-Sends drv ok _ p.direct_ce valid ready;
          memory = same;
          carries = single-Carries _ _ p.base.host (e ∷ es) same;
        }

    module _ (free : SourcesFree p.base (e ∷ es)) where
      pipelined-Gone :
          (n : ℕ)
          → suc n ≤ p.base.num_staging_bufs
          → Gone
              (e ∷ es)
              p
              (pipeline drv (suc n) 0 (suc n) ((length (e ∷ es) + suc n - 1) / suc n) (e ∷ es) p)
      pipelined-Gone n few =
          let per = (length (e ∷ es) + suc n - 1) / suc n in
          let enough : length (e ∷ es) ≤ (0 + suc n) * per = pipeline_enough (length (e ∷ es)) n in
          let small : sum_sizes (e ∷ es) ≤ p.base.staging_buffer_size = omega (
            arith,
            sum_bytes-sum_sizes e.size es (omega (arith, Side-sum_sizes e es range side)),
            fits,
          ) in
          let t =
            pipeline-Piped drv ok p.base buffers p.base.host (suc n) per (e ∷ es) side range small
              free (suc n) 0 p.direct_ce p.base.host p.base.staging_event_pending (omega arith)
              enough valid ready (λ x f. refl) in
          subst (Gone (e ∷ es) p) (sym t.run) (record {
            sent = t.sent;
            sends = t.sends;
            memory = λ device.
                t.memory device
                ∙ ap (λ k. copied_all p.base.host (drop k (e ∷ es)) device) (zero-mul per);
            carries =
                subst (λ k. Carries t.memory_now t.sent p.base.host (drop k (e ∷ es)))
                  (zero-mul per) t.carries;
          })

      gathered-Gone : Gone (e ∷ es) p (submit_gathered drv e es p)
      unfolding submit_gathered
      gathered-Gone =
          let count = length (e ∷ es) in
          let n = min pipeline_chunks p.base.num_staging_bufs in
          elim (Bool-cases (
            leb pipeline_min_entries count
            && leb 2 p.base.num_staging_bufs
            && ltb 0 p.base.active_gather_workers)) [
              | inl large ↦
                  let two : leb 2 p.base.num_staging_bufs ≡ true = ground (arith, large) in
                  let enough : 2 ≤ p.base.num_staging_bufs = ground (arith, two) in
                  let positive : suc (n - 1) ≡ n = omega (arith, enough) in
                  rw large (
                    subst
                      (λ k. Gone (e ∷ es) p (pipeline drv k 0 k ((count + k - 1) / k) (e ∷ es) p))
                      positive (pipelined-Gone (n - 1) (omega (arith, positive))))
              | inr other ↦ elim (Bool-cases (leb 64 count && ltb 0 p.base.active_gather_workers)) [
                | inl middle ↦ rw (other, middle) parallel-Gone
                | inr few ↦ rw (other, few) serially-Gone
              ]
            ]

  pub entries-Gone :
      (es : List SgEntry)
      → AllInRange es
      → SourcesFree p.base es
      → Gone es p (submit_entries drv es p)
  unfolding submit_entries
  entries-Gone [] r free = record {
    sent = [];
    sends = record { valid = valid; ready = ready; copied = refl };
    memory = λ device. refl;
    carries = λ x a m. absurd m;
  }
  entries-Gone (e ∷ es) (and_entry r rs) free =
      let total = sum_bytes 0 (e ∷ es) in
      let first : sum_bytes 0 (e ∷ es) ≡ sum_bytes e.size es = total_size e es r.dst_ends in
      elim (Bool-cases (dst_after e es && src_after e es && ltb 1 (length (e ∷ es)))) [
        | inl whole ↦
            let both = both_after e es (ground (arith, whole)) (ground (arith, whole)) in
            let joined : (ltb 1 (length (e ∷ es)) && contiguous_after e es) ≡ true =
              ground (arith, whole, both) in
            rw whole (
              let same = λ (device : Memory).
                ap (λ l. copied_all p.base.host l device) (grouped e es joined)
                ∙ group_copies-copied p.base.host device (e ∷ es) (and_entry r rs) in
              directly-Gone (record e { size = total } ∷ []) (e ∷ es) same
                (single-Carries p.base.host (record e { size = total }) p.base.host (e ∷ es) same))
        | inr parts ↦
            elim (Bool-cases (
              dst_after e es
              && not (src_after e es)
              && ltb 0 p.base.num_staging_bufs
              && leb total p.base.staging_buffer_size)) [
                | inl staged ↦
                    rw (parts, staged)
                      (gathered-Gone e es (and_entry r rs) (ground (arith, staged))
                        (ground (arith, staged)) (ground (arith, staged, first)) free)
                | inr apart ↦
                    rw (parts, apart)
                      (directly-Gone (e ∷ es) (e ∷ es) (λ device. refl)
                        (Carries-same p.base.host (e ∷ es)))
              ]
      ]

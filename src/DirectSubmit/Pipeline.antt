-- ===== src/DirectSubmit/Pipeline.antt =====
-- The pipelined submission: chunk after chunk through a staging buffer of its own.
use gfd.Base.{
  ℕ, ◌+◌, ◌%◌, ◌^◌, ◌≤◌, ◌<◌, ◌≡◌, ◌≢◌, refl, sym, ap, subst, ◌∙◌, Bool, true, false, arith, ltb,
  leb, ◌&&◌, ◌⊎◌, inl, inr, if-eq_right, Bool-cases, if◌then◌else◌, List, [], ◌∷◌,
}
use gfd.Driver.{Driver, Succeeds, SgEntry}
use gfd.Memory.{Memory}
use gfd.Memory.Cover.{In}
use gfd.CopyEngine.{Manager}
use gfd.CopyEngine.Submit.{IsValid}
use gfd.Coalesce.{sum_bytes}
use gfd.Staging.{gathered}
use gfd.Staging.Buffers.{Outside}
use gfd.ProcessBatch.{BatchPoller}
use gfd.ProcessBatch.Issued.{Sends, submit-Sends, record_event-Sends}
use gfd.DirectSubmit.{
  DirectSubmitter, submit_directly, submit_buffer, wait_for_chunk, gather_chunk, record_chunk,
  pipeline_chunk,
}

-- The staging buffers do not wrap around, and do not overlap.
pub record Buffers (base : BatchPoller) : Type 0 where
  pub room :
      (b : ℕ) → b < base.num_staging_bufs → base.staging_bufs b + base.staging_buffer_size < 2 ^ 64
  pub apart :
      (b c : ℕ)
      → b < base.num_staging_bufs
      → c < base.num_staging_bufs
      → b ≢ c
      → (base.staging_bufs b + base.staging_buffer_size ≤ base.staging_bufs c)
        ⊎ (base.staging_bufs c + base.staging_buffer_size ≤ base.staging_bufs b)

-- The address is in none of the buffers.
abbrev pub Free : BatchPoller → ℕ → Type 0
Free base x =
    (b : ℕ) → b < base.num_staging_bufs → Outside (base.staging_bufs b) base.staging_buffer_size x

-- No entry reads a staging buffer.
abbrev pub SourcesFree : BatchPoller → List SgEntry → Type 0
SourcesFree base es = (e : SgEntry) (x : ℕ) → In e es → e.src ≤ x → x < e.src + e.size → Free base x

-- A submitter whose manager, memory and pending events are these.
abbrev pub state : BatchPoller → Manager → Memory → (ℕ → Bool) → DirectSubmitter
state base m host pending = record {
  direct_ce = m;
  base = record base { host = host; staging_event_pending = pending };
}

module _ (drv : Driver) (ok : Succeeds drv) (base : BatchPoller) where
  abbrev pub run_at : ℕ → SgEntry → List SgEntry → SgEntry
  run_at b e es = record { dst = e.dst; src = base.staging_bufs b; size = sum_bytes e.size es }

  abbrev pub fill : Memory → ℕ → SgEntry → List SgEntry → Memory
  fill host b e es =
      gathered host base.active_gather_workers (base.staging_bufs b) base.staging_buffer_size
        (e ∷ es) e.dst

  pub record Stepped (b : ℕ) (e : SgEntry) (es : List SgEntry) (m : Manager) (host : Memory)
      (p' : DirectSubmitter) : Type 0 where
    pub ce : Manager
    pub pending : ℕ → Bool
    pub run : p' ≡ state base ce (fill host b e es) pending
    pub sends : Sends (run_at b e es ∷ []) m ce

  abbrev body : ℕ → ℕ → ℕ → SgEntry → List SgEntry → DirectSubmitter → DirectSubmitter
  body num_chunks c b e es p =
      let sent = submit_buffer drv b e es (gather_chunk b e es p) in
      if ltb (c + 1) num_chunks then record_chunk drv b sent else sent

  body-Stepped :
      (num_chunks c b : ℕ) (e : SgEntry) (es : List SgEntry) (m : Manager) (host : Memory)
      (pending : ℕ → Bool)
      → IsValid m
      → m.initialized ≡ true
      → Stepped b e es m host (body num_chunks c b e es (state base m host pending))
  unfolding submit_buffer submit_directly gather_chunk record_chunk
  body-Stepped num_chunks c b e es m host pending v r =
      let s = submit-Sends drv ok (run_at b e es ∷ []) m v r in
      elim (Bool-cases (ltb (c + 1) num_chunks)) [
        | inl more ↦ rw more (record {
          ce = _;
          pending = _;
          run = refl;
          sends = record_event-Sends drv ok b (run_at b e es ∷ []) m _ s;
        })
        | inr last ↦ rw last (record { ce = _; pending = pending; run = refl; sends = s })
      ]

  pub chunk-Stepped :
      (num_chunks c : ℕ) (e : SgEntry) (es : List SgEntry) (m : Manager) (host : Memory)
      (pending : ℕ → Bool)
      → c < base.num_staging_bufs
      → IsValid m
      → m.initialized ≡ true
      → Stepped c e es m host (pipeline_chunk drv num_chunks c (e ∷ es) (state base m host pending))
  unfolding pipeline_chunk wait_for_chunk
  chunk-Stepped num_chunks c e es m host pending lt v r =
      let p = state base m host pending in
      let b : c % base.num_staging_bufs ≡ c = grind arith in
      let early : (leb base.num_staging_bufs c && pending (c % base.num_staging_bufs)) ≡ false =
        ground (arith, lt) in
      let same : pipeline_chunk drv num_chunks c (e ∷ es) p ≡ body num_chunks c c e es p =
        ap (body num_chunks c (c % base.num_staging_bufs) e es) (if-eq_right _ _ early)
        ∙ ap (λ k. body num_chunks c k e es p) b in
      subst (Stepped c e es m host) (sym same) (body-Stepped num_chunks c c e es m host pending v r)

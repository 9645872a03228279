-- ===== src/DirectSubmit/Piped.antt =====
-- All chunks of the pipeline together leave the memory that copying the entries one by one leaves.
use gfd.Base.{
  ℕ, zero, suc, ◌+◌, ◌*◌, ◌≤◌, ◌<◌, ◌≡◌, refl, sym, ap, subst, ◌∙◌, Bool, true, arith, leb, inl,
  inr, Bool-cases, min, List, [], ◌∷◌, ◌++◌, length, drop, slice, drop-all, slice-append-drop,
}
use native.Mathlib.Nat.{add-zero}
use gfd.Driver.{Driver, Succeeds, SgEntry}
use gfd.Memory.{Memory, copied, copied_all}
use gfd.Memory.Cover.{copied_all-append}
use gfd.Memory.Concurrent.{Carries, Carries-append, single-Carries}
use gfd.CopyEngine.{Manager}
use gfd.CopyEngine.Sent.{onto, sum_sizes}
use gfd.CopyEngine.Submit.{IsValid}
use gfd.Coalesce.{sum_bytes}
use gfd.Coalesce.Sound.{AllInRange}
use gfd.Staging.Whole.{whole-copied}
use gfd.Staging.Buffers.{AgreeFor-copied, AgreeFor-copied_all, gathered-Outside}
use gfd.ProcessBatch.{BatchPoller}
use gfd.ProcessBatch.Issued.{Sends}
use gfd.DirectSubmit.{DirectSubmitter, pipeline_chunk, pipeline}
use gfd.DirectSubmit.Chunks.{
  Side, Side-slice, In-slice, AllInRange-slice, sum_sizes-slice-le, Side-sum_sizes,
  sum_bytes-sum_sizes,
}
use gfd.DirectSubmit.Pipeline.{Buffers, Free, SourcesFree, state, run_at, fill, chunk-Stepped}

suc_right : (c left : ℕ) → c + suc left ≡ c + 1 + left
suc_right c left = omega arith

module _ (drv : Driver) (ok : Succeeds drv) (base : BatchPoller) (buffers : Buffers base)
    (host0 : Memory) where
  -- The chunks from `c` on were sent; the buffers before `c` hold what they held.
  pub record Piped (c : ℕ) (rest : List SgEntry) (m : Manager) (host : Memory)
      (p' : DirectSubmitter) : Type 0 where
    pub ce : Manager
    pub memory_now : Memory
    pub pending : ℕ → Bool
    pub run : p' ≡ state base ce memory_now pending
    pub sent : List SgEntry
    pub sends : Sends sent m ce
    pub memory :
        (device : Memory) → copied_all memory_now sent device ≡ copied_all host0 rest device
    pub carries : Carries memory_now sent host0 rest
    pub earlier :
        (b x : ℕ)
        → b < c
        → base.staging_bufs b ≤ x
        → x < base.staging_bufs b + base.staging_buffer_size
        → memory_now x ≡ host x

  Piped-none :
      (c : ℕ) (m : Manager) (host : Memory) (pending : ℕ → Bool)
      → IsValid m
      → m.initialized ≡ true
      → Piped c [] m host (state base m host pending)
  unfolding copied_all
  Piped-none c m host pending v r = record {
    ce = m;
    memory_now = host;
    pending = pending;
    run = refl;
    sent = [];
    sends = record { valid = v; ready = r; copied = refl };
    memory = λ device. refl;
    carries = λ x p m. absurd m;
    earlier = λ b x lt lo hi. refl;
  }

  module _ (c : ℕ) (e : SgEntry) (es : List SgEntry) (host : Memory)
      (lt : c < base.num_staging_bufs) (side : Side (e ∷ es)) (range : AllInRange (e ∷ es))
      (small : sum_sizes (e ∷ es) ≤ base.staging_buffer_size) (free : SourcesFree base (e ∷ es))
      (agree : (x : ℕ) → Free base x → host x ≡ host0 x) where
    abbrev filled : Memory
    filled = fill drv ok base host c e es

    run_size : sum_bytes e.size es ≤ base.staging_buffer_size
    run_size = omega (
      arith,
      sum_bytes-sum_sizes e.size es (omega (arith, Side-sum_sizes e es range side)),
      small,
    )

    filled-Free : (x : ℕ) → Free base x → filled x ≡ host0 x
    filled-Free x f =
        gathered-Outside host base.active_gather_workers (base.staging_bufs c)
          base.staging_buffer_size (e ∷ es) e.dst x (f c lt)
        ∙ agree x f

    filled-earlier :
        (b x : ℕ)
        → b < c
        → base.staging_bufs b ≤ x
        → x < base.staging_bufs b + base.staging_buffer_size
        → filled x ≡ host x
    filled-earlier b x before lo hi =
        gathered-Outside host base.active_gather_workers (base.staging_bufs c)
          base.staging_buffer_size (e ∷ es) e.dst x
          (elim (buffers.apart b c (omega arith) lt (λ same. omega arith)) [
            | inl below ↦ inl (omega (arith, below))
            | inr above ↦ inr (omega (arith, above))
          ])

    filled-copied :
        (device : Memory)
        → copied filled (run_at drv ok base c e es) device ≡ copied_all host0 (e ∷ es) device
    unfolding copied_all
    filled-copied device =
        whole-copied host device base.active_gather_workers (base.staging_bufs c)
          base.staging_buffer_size e es range side run_size (buffers.room c lt)
        ∙ AgreeFor-copied_all host host0 (e ∷ es) device (λ f m x lo hi. agree x (free f x m lo hi))

    -- The copy of this chunk, then those of the later ones.
    Piped-next :
        (rest : List SgEntry) (m m1 : Manager) (pending : ℕ → Bool) (p' : DirectSubmitter)
        → Sends (run_at drv ok base c e es ∷ []) m m1
        → Piped (c + 1) rest m1 filled p'
        → Piped c ((e ∷ es) ++ rest) m host p'
    unfolding copied_all
    Piped-next rest m m1 pending p' s t =
        let r = run_at drv ok base c e es in
        let later : (device : Memory) → copied t.memory_now r device ≡ copied filled r device =
          λ device.
            AgreeFor-copied t.memory_now filled r device
              (λ x lo hi. t.earlier c x (omega arith) lo (omega (arith, run_size))) in
        record {
          ce = t.ce;
          memory_now = t.memory_now;
          pending = t.pending;
          run = t.run;
          sent = r ∷ t.sent;
          sends = record {
            valid = t.sends.valid;
            ready = t.sends.ready;
            copied = t.sends.copied ∙ ap (onto t.sent) s.copied;
          };
          memory = λ device.
              t.memory (copied t.memory_now r device)
              ∙ ap (copied_all host0 rest) (later device ∙ filled-copied device)
              ∙ sym (copied_all-append host0 device (e ∷ es) rest);
          carries =
              Carries-append t.memory_now host0 (r ∷ []) t.sent (e ∷ es) rest
                (single-Carries t.memory_now r host0 (e ∷ es)
                  (λ device. later device ∙ filled-copied device))
                t.carries;
          earlier = λ b x before lo hi.
              t.earlier b x (omega arith) lo hi ∙ filled-earlier b x before lo hi;
        }

  module _ (num_chunks per : ℕ) (entries : List SgEntry) (side : Side entries)
      (range : AllInRange entries) (small : sum_sizes entries ≤ base.staging_buffer_size)
      (free : SourcesFree base entries) where
    abbrev Rest : ℕ → ℕ → Type 0
    Rest left c =
        (m : Manager) (host : Memory) (pending : ℕ → Bool)
        → IsValid m
        → m.initialized ≡ true
        → ((x : ℕ) → Free base x → host x ≡ host0 x)
        → Piped c (drop (c * per) entries) m host
            (pipeline drv left c num_chunks per entries (state base m host pending))

    -- One chunk `ch`, whose entries are among those of the submission.
    chunk-Piped :
        (left c : ℕ) (ch : List SgEntry) (m : Manager) (host : Memory) (pending : ℕ → Bool)
        → c < base.num_staging_bufs
        → ch ++ drop ((c + 1) * per) entries ≡ drop (c * per) entries
        → Side ch
        → AllInRange ch
        → sum_sizes ch ≤ base.staging_buffer_size
        → SourcesFree base ch
        → IsValid m
        → m.initialized ≡ true
        → ((x : ℕ) → Free base x → host x ≡ host0 x)
        → Rest left (c + 1)
        → Piped c (drop (c * per) entries) m host (
            pipeline drv left
              (c + 1)
              num_chunks
              per
              entries
              (pipeline_chunk drv num_chunks c ch (state base m host pending)))
    unfolding pipeline_chunk
    chunk-Piped left c [] m host pending lt parts side' range' small' free' v r agree rest =
        let t = rest m host pending v r agree in
        record {
          ce = t.ce;
          memory_now = t.memory_now;
          pending = t.pending;
          run = t.run;
          sent = t.sent;
          sends = t.sends;
          memory = λ device. t.memory device ∙ ap (λ l. copied_all host0 l device) parts;
          carries = subst (Carries t.memory_now t.sent host0) parts t.carries;
          earlier = λ b x before lo hi. t.earlier b x (omega arith) lo hi;
        }
    chunk-Piped left c (e ∷ es) m host pending lt parts side' range' small' free' v r agree rest =
        let st = chunk-Stepped drv ok base num_chunks c e es m host pending lt v r in
        let filled' = fill drv ok base host c e es in
        let later =
          rest st.ce filled' st.pending st.sends.valid st.sends.ready
            (filled-Free c e es host lt side' range' small' free' agree) in
        let next =
          Piped-next c e es host lt side' range' small' free' agree (drop ((c + 1) * per) entries) m
            st.ce st.pending
            (pipeline drv left (c + 1) num_chunks per entries (state base st.ce filled' st.pending))
            st.sends later in
        subst
          (λ l. Piped c l m host (
            pipeline drv left (c + 1) num_chunks per entries
              (pipeline_chunk drv num_chunks c (e ∷ es) (state base m host pending))))
          parts
          (subst
            (λ p.
              Piped c ((e ∷ es) ++ drop ((c + 1) * per) entries) m host
                (pipeline drv left (c + 1) num_chunks per entries p))
            (sym st.run) next)

    pub pipeline-Piped :
        (left c : ℕ) (m : Manager) (host : Memory) (pending : ℕ → Bool)
        → c + left ≤ base.num_staging_bufs
        → length entries ≤ (c + left) * per
        → IsValid m
        → m.initialized ≡ true
        → ((x : ℕ) → Free base x → host x ≡ host0 x)
        → Piped c
            (drop (c * per) entries)
            m
            host
            (pipeline drv left c num_chunks per entries (state base m host pending))
    unfolding pipeline
    pipeline-Piped zero c m host pending few enough v r agree =
        let none : drop (c * per) entries ≡ [] =
          drop-all (c * per) entries (omega (arith, ap (λ (t : ℕ). t * per) (add-zero c))) in
        rw none (Piped-none c m host pending v r)
    pipeline-Piped (suc left) c m host pending few enough v r agree =
        elim (Bool-cases (leb (length entries) (c * per))) [
          | inl over ↦
              let none : drop (c * per) entries ≡ [] =
                drop-all (c * per) entries (ground (arith, over)) in
              rw (over, none) (Piped-none c m host pending v r)
          | inr more ↦
              let start = c * per in
              let end = min (start + per) (length entries) in
              let next : (c + 1) * per ≡ start + per = omega arith in
              let parts : slice start end entries ++ drop ((c + 1) * per) entries
                  ≡ drop start entries =
                rw next (slice-append-drop start per entries) in
              let last : length entries ≤ (c + 1 + left) * per =
                omega (arith, enough, ap (λ (t : ℕ). t * per) (suc_right c left)) in
              rw more (
                chunk-Piped left c (slice start end entries) m host pending (omega arith) parts
                  (Side-slice start end entries side) (AllInRange-slice start end entries range)
                  (omega (arith, sum_sizes-slice-le start end entries))
                  (λ e x n lo hi. free e x (In-slice start end entries e n) lo hi) v r agree
                  (λ m' host' pending' v' r' agree'.
                    pipeline-Piped left (c + 1) m' host' pending' (omega arith) last v' r' agree'))
        ]

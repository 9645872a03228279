-- ===== src/CopyEngine/Hazards.antt =====
-- What the event of the last stream covers, and what a failed submission leaves behind.
use Prim.Native.Nat.{bit_or}
use gfd.Base.{
  ℕ, suc, ◌+◌, ◌-◌, ◌%◌, ◌^◌, ◌<◌, ◌≤◌, ◌≡◌, ◌≢◌, refl, ap, ◌∙◌, true, List, [], ◌∷◌, arith, update,
  dec_lt,
}
use gfd.Driver.{
  Driver, Succeeds, SgEntry, channel, staging_event, event_record, memcpy_htod_async, ctx_push,
  ctx_pop,
}
use gfd.Driver.Clock.{clock, copies, Clock}
use gfd.CopyEngine.{
  Manager, success, error, M, ◌>>◌, check, copy_on, copy_all, submit_few, submit_many,
  submit_chunks, distribute, record_all, submit_scatter_gather, channels_of, set_bits, unpinned,
  wait_completion, record_event_on_last_stream,
}
use gfd.CopyEngine.Runs.{Ends, called, check-eq, copy_on-eq, Unmoved, unpinned-Unmoved}
use gfd.CopyEngine.Submit.{IsValid, Unmoved-IsValid, Marked, record_all-Marked}

-- Submitting one run from a staging buffer and recording the buffer's event.
abbrev pub submit_run : Driver → SgEntry → ℕ → M (Unit {0})
submit_run drv e b = do
  submit_scatter_gather drv (e ∷ [])
  record_event_on_last_stream drv (staging_event b)

last_channel : (next num : ℕ) → next < num → num ≤ 3 → ((next + 1) % num + num - 1) % num ≡ next
last_channel next num h h3 = elim (dec_lt (next + 1) num) [
  | yes more ↦
      let step : (next + 1) % num ≡ next + 1 = grind arith in
      let e : (next + 1) % num + num - 1 ≡ next + num = omega (arith, step) in rw e (grind arith)
  | no last ↦
      let whole : next + 1 ≡ num = omega arith in
      let step : (next + 1) % num ≡ 0 = rw whole (grind arith) in
      let e : (next + 1) % num + num - 1 ≡ next = omega (arith, step) in rw e (grind arith)
]

-- The manager after the copy of a run.
abbrev run_sent : SgEntry → Manager → Manager
run_sent e m = record m {
  next_channel = (m.next_channel + 1) % m.num_channels;
  trace = memcpy_htod_async e (channel m.next_channel) ∷ m.trace;
  total_bytes = m.total_bytes + e.size;
  dirty_mask = bit_or m.dirty_mask (bit_or 0 (2 ^ m.next_channel));
}

module _ (e : SgEntry) (cs : List ℕ) (m m1 m3 m4 : Manager) (v : IsValid m) (u : Unmoved m m1)
    (k : Marked cs (run_sent e m1) m3) (z : Unmoved m3 m4) where
  last_of_run : (m4.next_channel + m4.num_channels - 1) % m4.num_channels ≡ m.next_channel
  last_of_run =
      let n : m4.num_channels ≡ m.num_channels =
        ap (λ (x : Manager). x.num_channels) z.same
        ∙ ap (λ (x : Manager). x.num_channels) k.same
        ∙ ap (λ (x : Manager). x.num_channels) u.same in
      let c : m4.next_channel ≡ (m.next_channel + 1) % m.num_channels =
        ap (λ (x : Manager). x.next_channel) z.same
        ∙ ap (λ (x : Manager). x.next_channel) k.same
        ∙ ap (λ (x : Manager). (x.next_channel + 1) % x.num_channels) u.same in
      rw (n, c) (last_channel m.next_channel m.num_channels v.next_in v.few_channels)

  run_issued :
      (c : ℕ)
      → (clock m4.trace).issued c
        ≡ update (clock m.trace).issued m.next_channel ((clock m.trace).issued m.next_channel + 1) c
  run_issued c =
      ap (λ (t : Clock). t.issued c) z.clocks
      ∙ k.issued c
      ∙ ap
          (λ (x : Manager).
            update (clock m1.trace).issued x.next_channel
              ((clock m1.trace).issued x.next_channel + 1) c)
          u.same
      ∙ ap (λ (t : Clock). update t.issued m.next_channel (t.issued m.next_channel + 1) c) u.clocks

module _ (drv : Driver) (ok : Succeeds drv) where
  single-eq :
      (e : SgEntry) (m : Manager)
      → 0 < m.num_channels
      → distribute drv (e ∷ []) m ≡ (
        success (bit_or 0 (2 ^ m.next_channel)),
        record m {
          next_channel = (m.next_channel + 1) % m.num_channels;
          trace = memcpy_htod_async e (channel m.next_channel) ∷ m.trace;
          total_bytes = m.total_bytes + e.size;
        },
      )
  unfolding distribute submit_few
  single-eq e m h =
      let c =
        copy_on-eq drv ok m.next_channel e
          (record m { next_channel = (m.next_channel + 1) % m.num_channels }) in
      ground (arith, c)

  -- The event recorded after the submission of one run stands on the channel that copies the run, and
  -- covers every copy issued to that channel; no other channel got a copy.
  pub submit_run_covered :
      (e : SgEntry) (b : ℕ) (m : Manager)
      → IsValid m
      → m.initialized ≡ true
      → Ends (submit_run drv e b m) (λ _ m'.
        let k = clock m'.trace in
        let mark = k.staging_mark b in
        (mark.on ≡ m.next_channel)
        × (mark.upto ≡ k.issued mark.on)
        × (copies m'.trace ≡ e ∷ copies m.trace)
        × (k.issued m.next_channel ≡ (clock m.trace).issued m.next_channel + 1)
        × ((c : ℕ) → c ≢ m.next_channel → k.issued c ≡ (clock m.trace).issued c))
  unfolding submit_scatter_gather record_event_on_last_stream
  submit_run_covered e b m v init =
      let a = unpinned-Unmoved drv ok ctx_push m (λ k. refl) (λ t. refl) in
      let d = single-eq e a.state (Unmoved-IsValid a.post v).some_channel in
      let mask = bit_or 0 (2 ^ a.state.next_channel) in
      let sent = run_sent e a.state in
      let k = record_all-Marked drv ok (channels_of mask) sent in
      let z = unpinned-Unmoved drv ok ctx_pop k.state (λ k. refl) (λ t. refl) in
      let init' : z.state.initialized ≡ true =
        ap (λ (x : Manager). x.initialized) z.post.same
        ∙ ap (λ (x : Manager). x.initialized) k.post.same
        ∙ ap (λ (x : Manager). x.initialized) a.post.same
        ∙ init in
      let last =
        last_of_run e (channels_of mask) m a.state k.state z.state v a.post k.post z.post in
      let issued =
        run_issued e (channels_of mask) m a.state k.state z.state v a.post k.post z.post in
      let ch = (z.state.next_channel + z.state.num_channels - 1) % z.state.num_channels in
      let ev = event_record (staging_event b) (channel ch) in
      let counted : Manager = record (z.state) {
        total_submissions = z.state.total_submissions + 1;
        total_entries = z.state.total_entries + 1;
      } in
      record {
        value = tt;
        state = called ev counted;
        run = ground (arith, init, init', a.run, d, k.run, z.run, check-eq drv ok ev counted);
        post = (
          ground (arith, last),
          ground arith,
          z.post.copied ∙ k.post.copied ∙ ap (◌∷◌ e) a.post.copied,
          issued m.next_channel ∙ ground arith,
          λ c h. issued c ∙ ground (arith, h),
        );
      }

-- A manager between submissions: three channels, the context pinned, nothing on its way.
abbrev pub idle_manager : Manager → Manager
idle_manager m = record m {
  initialized = true;
  context_pinned = true;
  num_channels = 3;
  next_channel = 0;
  dirty_mask = 0;
}

-- The event of the last stream after a submission of more entries than channels stands on the last
-- channel alone. Four runs on three channels leave that channel without a copy: the event covers
-- nothing, while two copies are on their way on each of the other channels.
pub many_runs_not_covered :
    (e1 e2 e3 e4 : SgEntry) (b : ℕ) (m : Manager)
    → let r =
        (do
          submit_scatter_gather (λ _. 0) (e1 ∷ e2 ∷ e3 ∷ e4 ∷ [])
          record_event_on_last_stream (λ _. 0) (staging_event b))
          (idle_manager m) in
      let k = clock r.1.trace in
      ((k.staging_mark b).on ≡ 2)
      × ((k.staging_mark b).upto ≡ (clock m.trace).issued 2)
      × (k.issued 2 ≡ (clock m.trace).issued 2)
      × (k.issued 0 ≡ (clock m.trace).issued 0 + 2)
      × (k.issued 1 ≡ (clock m.trace).issued 1 + 2)
unfolding submit_scatter_gather record_event_on_last_stream distribute submit_many submit_chunks
    copy_all copy_on check unpinned record_all set_bits
many_runs_not_covered e1 e2 e3 e4 b m = (ground arith, ground arith, refl, omega arith, omega arith)

-- On an idle manager with three channels and the context pinned: if the second of two copies fails, then
-- the first stays untracked: no channel is dirty, so the wait for completion returns at once, with the
-- copy on its way.
pub failed_submission_untracked :
    (drv : Driver) (e1 e2 : SgEntry) (code : ℕ) (m : Manager)
    → drv (memcpy_htod_async e1 (channel 0) ∷ m.trace) ≡ 0
    → drv (memcpy_htod_async e2 (channel 1) ∷ memcpy_htod_async e1 (channel 0) ∷ m.trace) ≡ suc code
    → let r = submit_scatter_gather drv (e1 ∷ e2 ∷ []) (idle_manager m) in
      (r.0 ≡ error (suc code))
      × ((clock r.1.trace).issued 0 ≡ (clock m.trace).issued 0 + 1)
      × ((clock r.1.trace).finished 0 ≡ (clock m.trace).finished 0)
      × (wait_completion drv r.1 ≡ (success tt, r.1))
unfolding submit_scatter_gather distribute submit_few copy_on check unpinned wait_completion
failed_submission_untracked drv e1 e2 code m h1 h2 =
    (ground (arith, h1, h2), ground (arith, h1, h2), ground (arith, h1, h2), ground (arith, h1, h2))

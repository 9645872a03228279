-- ===== src/CopyEngine/Wait.antt =====
-- `wait_completion`, `submit_and_wait` and the event of the last stream: what a wait covers.
use gfd.Base.{
  ℕ, ◌/◌, ◌^◌, ◌<◌, ◌≤◌, ◌≡◌, refl, ap, sym, ◌∙◌, true, List, [], ◌∷◌, arith, length, has, has_flag,
  inl, inr, ℕ_discrete,
}
use gfd.Driver.{Driver, Succeeds, SgEntry, channel_event, event_synchronize, ctx_push, ctx_pop}
use gfd.Driver.Clock.{clock, copies, Mark}
use gfd.CopyEngine.{Manager, channels_of, synchronize_all, wait_completion, submit_and_wait}
use gfd.CopyEngine.Masks.{count_of, channels_of_once}
use gfd.CopyEngine.Runs.{Ends, called, synchronize_all-eq, Unmoved, unpinned-Unmoved}
use gfd.CopyEngine.Sent.{onto}
use gfd.CopyEngine.Submit.{IsValid, Unmoved-IsValid, submit_scatter_gather_copies}

-- The events of a list of channels were waited for, and nothing else happened.
pub record Synced (cs : List ℕ) (m m' : Manager) : Type 0 where
  pub same : m' ≡ record m { trace = m'.trace }
  pub copied : copies m'.trace ≡ copies m.trace
  pub issued : (c : ℕ) → (clock m'.trace).issued c ≡ (clock m.trace).issued c
  pub marks : (c : ℕ) → (clock m'.trace).channel_mark c ≡ (clock m.trace).channel_mark c
  pub grows : (c : ℕ) → (clock m.trace).finished c ≤ (clock m'.trace).finished c
  pub hit :
      (c : ℕ)
      → 0 < count_of c cs
      → ((clock m.trace).channel_mark c).on ≡ c
      → ((clock m.trace).channel_mark c).upto ≤ (clock m'.trace).finished c

not_in_zero : (c : ℕ) → ¬ (has 0 c ≡ true)
unfolding has_flag
not_in_zero c h = let e : 0 / 2 ^ c ≡ 0 = omega arith in ground (arith, h, e)

-- No copy may still run on any channel.
abbrev pub Drained : Manager → Type 0
Drained m = (c : ℕ) → c < 4 → (clock m.trace).issued c ≤ (clock m.trace).finished c

module _ (drv : Driver) (ok : Succeeds drv) where
  synchronize_all-Synced :
      (cs : List ℕ) (m : Manager) → Ends (synchronize_all drv cs m) (λ _ m'. Synced cs m m')
  unfolding synchronize_all
  synchronize_all-Synced [] m = record {
    value = tt;
    state = m;
    run = refl;
    post = record {
      same = refl;
      copied = refl;
      issued = λ c. refl;
      marks = λ c. refl;
      grows = λ c. omega arith;
      hit = λ c h. absurd (omega arith);
    };
  }
  synchronize_all-Synced (ch ∷ cs) m =
      let call = event_synchronize (channel_event ch) in
      let ih = synchronize_all-Synced cs (called call m) in
      let s = ih.post in
      record {
        value = tt;
        state = ih.state;
        run = synchronize_all-eq drv ok ch cs m ∙ ih.run;
        post = record {
          same = s.same;
          copied = s.copied;
          issued = s.issued;
          marks = s.marks;
          grows = λ c. ground (arith, s.grows c);
          hit = λ c h on. elim (ℕ_discrete (count_of c cs) 0) [
            | yes last ↦ ground (arith, h, last, on, s.grows c)
            | no more ↦ s.hit c (omega arith) on
          ];
        };
      }

  Synced-Drained :
      (m m1 m2 m3 : Manager)
      → IsValid m
      → Unmoved m m1
      → Synced (channels_of m.dirty_mask) m1 m2
      → Unmoved (record m2 { dirty_mask = 0 }) m3
      → Drained m3
  Synced-Drained m m1 m2 m3 v u s z c hc =
      let v1 = Unmoved-IsValid u v in
      let done : (clock m2.trace).issued c ≤ (clock m2.trace).finished c = elim (v1.covered c hc) [
        | inl over ↦ omega (arith, s.issued c, s.grows c)
        | inr (d, e) ↦
            let mask : m1.dirty_mask ≡ m.dirty_mask = ap (λ (x : Manager). x.dirty_mask) u.same in
            let set : has m.dirty_mask c ≡ true = ap (λ k. has k c) (sym mask) ∙ d in
            let visits : 0 < count_of c (channels_of m.dirty_mask) =
              ground (arith, channels_of_once m.dirty_mask c v.mask_small hc, set) in
            let on = ap (λ (k : Mark). k.on) e in
            let upto = ap (λ (k : Mark). k.upto) e in
            omega (arith, s.issued c, s.hit c visits on, upto)
      ] in
      rw z.clocks done

  -- With no channel dirty, what is covered is over.
  clean-Drained : (m : Manager) → IsValid m → m.dirty_mask ≡ 0 → Drained m
  clean-Drained m v e c hc = elim (v.covered c hc) [
    | inl done ↦ done
    | inr (d, k) ↦ absurd (not_in_zero c (ap (λ x. has x c) (sym e) ∙ d))
  ]

  waited-IsValid :
      (m m1 m2 m3 : Manager)
      → IsValid m
      → Unmoved m m1
      → Synced (channels_of m.dirty_mask) m1 m2
      → Unmoved (record m2 { dirty_mask = 0 }) m3
      → (m3.dirty_mask ≡ 0) × IsValid m3 × (copies m3.trace ≡ copies m.trace)
  waited-IsValid m m1 m2 m3 v u s z =
      let number =
        ap (λ (x : Manager). x.num_channels) z.same
        ∙ ap (λ (x : Manager). x.num_channels) s.same
        ∙ ap (λ (x : Manager). x.num_channels) u.same in
      let next_ =
        ap (λ (x : Manager). x.next_channel) z.same
        ∙ ap (λ (x : Manager). x.next_channel) s.same
        ∙ ap (λ (x : Manager). x.next_channel) u.same in
      let mask : m3.dirty_mask ≡ 0 = ap (λ (x : Manager). x.dirty_mask) z.same in
      let drained = Synced-Drained m m1 m2 m3 v u s z in
      (
        mask,
        record {
          some_channel = omega (arith, number, v.some_channel);
          few_channels = omega (arith, number, v.few_channels);
          next_in = omega (arith, number, next_, v.next_in);
          mask_small = omega arith;
          covered = λ c hc. inl (drained c hc);
        },
        z.copied ∙ s.copied ∙ u.copied,
      )

  -- Against a driver that reports no error, `wait_completion` on a valid, initialised manager returns
  -- once no copy of any channel may still run; no channel is dirty then, the manager is valid, and
  -- no copy was added.
  pub wait_completion_drains :
      (m : Manager)
      → IsValid m
      → m.initialized ≡ true
      → Ends (wait_completion drv m) (λ _ m'.
        Drained m' × (m'.dirty_mask ≡ 0) × IsValid m' × (copies m'.trace ≡ copies m.trace))
  unfolding wait_completion
  wait_completion_drains m v init = elim (ℕ_discrete m.dirty_mask 0) [
    | yes clean ↦ record {
      value = tt;
      state = m;
      run = ground (arith, clean);
      post = (clean-Drained m v clean, clean, v, refl);
    }
    | no dirty ↦
        let a = unpinned-Unmoved drv ok ctx_push m (λ k. refl) (λ t. refl) in
        let s = synchronize_all-Synced (channels_of m.dirty_mask) a.state in
        let cleared : Manager = record (s.state) { dirty_mask = 0 } in
        let z = unpinned-Unmoved drv ok ctx_pop cleared (λ k. refl) (λ t. refl) in
        let r = waited-IsValid m a.state s.state z.state v a.post s.post z.post in
        record {
          value = tt;
          state = z.state;
          run = ground (arith, a.run, s.run, z.run, init, dirty);
          post = (Synced-Drained m a.state s.state z.state v a.post s.post z.post, r.0, r.1, r.2);
        }
  ]

  -- `submit_and_wait` copies every entry, and returns once no copy of any channel may still run.
  pub submit_and_wait_completes :
      (es : List SgEntry) (m : Manager)
      → IsValid m
      → m.initialized ≡ true
      → 0 < length es
      → Ends
          (submit_and_wait drv es m)
          (λ _ m'. (copies m'.trace ≡ onto es (copies m.trace)) × Drained m' × IsValid m')
  unfolding submit_and_wait
  submit_and_wait_completes es m v init some =
      let s = submit_scatter_gather_copies drv ok es m v init some in
      let w = wait_completion_drains s.state s.post.valid (s.post.open_ ∙ init) in
      record {
        value = w.value;
        state = w.state;
        run = ground (arith, s.run, w.run);
        post = (w.post.3 ∙ s.post.copied, w.post.0, w.post.2);
      }

-- ===== src/CopyEngine/Submit.antt =====
-- `submit_scatter_gather` as a whole, and the invariant of the manager.
use Prim.Native.Nat.{bit_or}
use gfd.Base.{
  ℕ, ◌+◌, ◌<◌, ◌≤◌, ◌≡◌, refl, ap, ◌∙◌, true, false, ◌||◌, ◌==◌, not, List, [], ◌∷◌, arith, length,
  has, bit_or-lt, has-bit_or, Bool-cases, ◌⊎◌, inl, inr, ℕ_discrete,
}
use gfd.Driver.{Driver, Succeeds, SgEntry, channel, channel_event, event_record, ctx_push, ctx_pop}
use gfd.Driver.Clock.{clock, copies, Clock, Mark}
use gfd.CopyEngine.{Manager, record_all, submit_scatter_gather, channels_of}
use gfd.CopyEngine.Masks.{count_of, channels_of_once}
use gfd.CopyEngine.Runs.{Ends, called, record_all-eq, Unmoved, unpinned-Unmoved}
use gfd.CopyEngine.Sent.{Sent, onto, sum_sizes}
use gfd.CopyEngine.Distribute.{distribute-Sent}

abbrev pub mark_all : ℕ → Clock → Mark
mark_all c k = record { on = c; upto = k.issued c }

-- Events were recorded on the channels of a list, and nothing else happened.
pub record Marked (cs : List ℕ) (m m' : Manager) : Type 0 where
  pub same : m' ≡ record m { trace = m'.trace }
  pub copied : copies m'.trace ≡ copies m.trace
  pub issued : (c : ℕ) → (clock m'.trace).issued c ≡ (clock m.trace).issued c
  pub finished : (c : ℕ) → (clock m'.trace).finished c ≡ (clock m.trace).finished c
  pub hit :
      (c : ℕ) → 0 < count_of c cs → (clock m'.trace).channel_mark c ≡ mark_all c (clock m.trace)
  pub miss :
      (c : ℕ) → count_of c cs ≡ 0 → (clock m'.trace).channel_mark c ≡ (clock m.trace).channel_mark c

module _ (drv : Driver) (ok : Succeeds drv) where
  pub record_all-Marked :
      (cs : List ℕ) (m : Manager) → Ends (record_all drv cs m) (λ _ m'. Marked cs m m')
  unfolding record_all
  record_all-Marked [] m = record {
    value = tt;
    state = m;
    run = refl;
    post = record {
      same = refl;
      copied = refl;
      issued = λ c. refl;
      finished = λ c. refl;
      hit = λ c h. absurd (omega arith);
      miss = λ c h. refl;
    };
  }
  record_all-Marked (ch ∷ cs) m =
      let call = event_record (channel_event ch) (channel ch) in
      let ih = record_all-Marked cs (called call m) in
      let s = ih.post in
      record {
        value = tt;
        state = ih.state;
        run = record_all-eq drv ok ch cs m ∙ ih.run;
        post = record {
          same = s.same;
          copied = s.copied;
          issued = s.issued;
          finished = s.finished;
          hit = λ c h. elim (ℕ_discrete (count_of c cs) 0) [
            | yes last ↦ s.miss c last ∙ ground (arith, h, last)
            | no more ↦ s.hit c (omega arith)
          ];
          miss = λ c h.
              let rest : count_of c cs ≡ 0 = omega arith in s.miss c rest ∙ ground (arith, h, rest);
        };
      }

-- Between the manager's calls, each channel either has no copy that may still run, or is dirty and
-- its event covers all of its copies.
pub record IsValid (m : Manager) : Type 0 where
  pub some_channel : 0 < m.num_channels
  pub few_channels : m.num_channels ≤ 3
  pub next_in : m.next_channel < m.num_channels
  pub mask_small : m.dirty_mask < 16
  pub covered :
      (c : ℕ)
      → c < 4
      → ((clock m.trace).issued c ≤ (clock m.trace).finished c)
        ⊎ ((has m.dirty_mask c ≡ true)
            × ((clock m.trace).channel_mark c ≡ mark_all c (clock m.trace)))

-- The channels with new copies are those of the mask: after the recording, all are covered.
covered_after :
    (mask : ℕ) (es : List SgEntry) (m m' m'' : Manager)
    → mask < 16
    → IsValid m
    → Sent mask es m m'
    → Marked (channels_of mask) (record m' { dirty_mask = bit_or m'.dirty_mask mask }) m''
    → (c : ℕ) → c < 4
    → ((clock m''.trace).issued c ≤ (clock m''.trace).finished c)
      ⊎ ((has (bit_or m.dirty_mask mask) c ≡ true)
          × ((clock m''.trace).channel_mark c ≡ mark_all c (clock m''.trace)))
covered_after mask es m m' m'' hm v s k c hc = elim (Bool-cases (has mask c)) [
  | inl new ↦
      let visits : 0 < count_of c (channels_of mask) =
        ground (arith, channels_of_once mask c hm hc, new) in
      inr (
        ground (arith, has-bit_or m.dirty_mask mask c v.mask_small hm hc, new),
        ground (arith, k.hit c visits, k.issued c),
      )
  | inr old ↦
      let none : count_of c (channels_of mask) ≡ 0 =
        ground (arith, channels_of_once mask c hm hc, old) in
      let i : (clock m''.trace).issued c ≡ (clock m.trace).issued c =
        k.issued c ∙ s.others c hc old in
      let f : (clock m''.trace).finished c ≡ (clock m.trace).finished c =
        k.finished c ∙ s.finished c in
      let mk : (clock m''.trace).channel_mark c ≡ (clock m.trace).channel_mark c =
        k.miss c none ∙ s.marks c in
      elim (v.covered c hc) [
        | inl done ↦ inl (omega arith)
        | inr (d, e) ↦ inr (
          ground (arith, has-bit_or m.dirty_mask mask c v.mask_small hm hc, d),
          ground (arith, mk, e, i),
        )
      ]
]

pub Unmoved-IsValid : {m m' : Manager} → Unmoved m m' → IsValid m → IsValid m'
Unmoved-IsValid {m} {m'} u v =
    let i = λ (c : ℕ). ap (λ (k : Clock). k.issued c) u.clocks in
    let f = λ (c : ℕ). ap (λ (k : Clock). k.finished c) u.clocks in
    rw (u.same) (record {
      some_channel = v.some_channel;
      few_channels = v.few_channels;
      next_in = v.next_in;
      mask_small = v.mask_small;
      covered = λ c hc. rw (u.clocks) (v.covered c hc);
    })

-- What a submission leaves behind: every entry copied, behind all earlier copies, and counted.
pub record Submitted (es : List SgEntry) (m m' : Manager) : Type 0 where
  pub valid : IsValid m'
  pub copied : copies m'.trace ≡ onto es (copies m.trace)
  pub open_ : m'.initialized ≡ m.initialized
  pub pinned : m'.context_pinned ≡ m.context_pinned
  pub submissions : m'.total_submissions ≡ m.total_submissions + 1
  pub entries : m'.total_entries ≡ m.total_entries + length es
  pub bytes : m'.total_bytes ≡ m.total_bytes + sum_sizes es

submission-Submitted :
    (es : List SgEntry) (mask : ℕ) (m m1 m2 m3 m4 : Manager)
    → IsValid m
    → Unmoved m m1
    → mask < 16
    → Sent mask es m1 m2
    → m2.next_channel < m2.num_channels
    → Marked (channels_of mask) (record m2 { dirty_mask = bit_or m2.dirty_mask mask }) m3
    → Unmoved m3 m4
    → Submitted es m (record m4 {
      total_submissions = m4.total_submissions + 1;
      total_entries = m4.total_entries + length es;
    })
submission-Submitted es mask m m1 m2 m3 m4 v u hm s hn k z =
    let v1 = Unmoved-IsValid u v in
    let dirty : m4.dirty_mask ≡ bit_or m1.dirty_mask mask =
      ap (λ (x : Manager). x.dirty_mask) z.same
      ∙ ap (λ (x : Manager). x.dirty_mask) k.same
      ∙ ap (λ d. bit_or d mask) s.dirty in
    let number : m4.num_channels ≡ m2.num_channels =
      ap (λ (x : Manager). x.num_channels) z.same ∙ ap (λ (x : Manager). x.num_channels) k.same in
    let next_ : m4.next_channel ≡ m2.next_channel =
      ap (λ (x : Manager). x.next_channel) z.same ∙ ap (λ (x : Manager). x.next_channel) k.same in
    record {
      valid = record {
        some_channel = omega (arith, number, s.number, v1.some_channel);
        few_channels = omega (arith, number, s.number, v1.few_channels);
        next_in = omega (arith, number, next_, hn);
        mask_small = rw dirty (bit_or-lt m1.dirty_mask mask v1.mask_small hm);
        covered = λ c hc. rw (dirty, z.clocks) (covered_after mask es m1 m2 m3 hm v1 s k c hc);
      };
      copied = z.copied ∙ k.copied ∙ s.copied ∙ ap (onto es) u.copied;
      open_ =
          ap (λ (x : Manager). x.initialized) z.same
          ∙ ap (λ (x : Manager). x.initialized) k.same
          ∙ s.open_
          ∙ ap (λ (x : Manager). x.initialized) u.same;
      pinned =
          ap (λ (x : Manager). x.context_pinned) z.same
          ∙ ap (λ (x : Manager). x.context_pinned) k.same
          ∙ s.pinned
          ∙ ap (λ (x : Manager). x.context_pinned) u.same;
      submissions =
          ap (λ (x : Manager). x.total_submissions + 1) z.same
          ∙ ap (λ (x : Manager). x.total_submissions + 1) k.same
          ∙ ap (λ n. n + 1) s.submissions
          ∙ ap (λ (x : Manager). x.total_submissions + 1) u.same;
      entries =
          ap (λ (x : Manager). x.total_entries + length es) z.same
          ∙ ap (λ (x : Manager). x.total_entries + length es) k.same
          ∙ ap (λ n. n + length es) s.entries
          ∙ ap (λ (x : Manager). x.total_entries + length es) u.same;
      bytes =
          ap (λ (x : Manager). x.total_bytes) z.same
          ∙ ap (λ (x : Manager). x.total_bytes) k.same
          ∙ s.bytes
          ∙ ap (λ (x : Manager). x.total_bytes + sum_sizes es) u.same;
    }

-- Against a driver that reports no error, an initialised manager with a valid state copies every
-- entry of a submission that is not empty, once and in order, counts the submission, the entries and
-- the bytes, leaves the context pinned or unpinned as it was, and keeps its invariant: each channel
-- with a copy that may still run is dirty, and its event covers all of its copies.
pub submit_scatter_gather_copies :
    (drv : Driver) (ok : Succeeds drv) (es : List SgEntry) (m : Manager)
    → IsValid m
    → m.initialized ≡ true
    → 0 < length es
    → Ends (submit_scatter_gather drv es m) (λ _ m'. Submitted es m m')
unfolding submit_scatter_gather
submit_scatter_gather_copies drv ok es m v init some =
    let go : (not m.initialized || (length es == 0)) ≡ false = ground (arith, init, some) in
    let a = unpinned-Unmoved drv ok ctx_push m (λ k. refl) (λ t. refl) in
    let va = Unmoved-IsValid a.post v in
    let d = distribute-Sent drv ok es a.state va.some_channel va.few_channels va.next_in in
    let s = d.post.1 in
    let dirty : Manager = record (d.state) { dirty_mask = bit_or d.state.dirty_mask d.value } in
    let k = record_all-Marked drv ok (channels_of d.value) dirty in
    let z = unpinned-Unmoved drv ok ctx_pop k.state (λ k. refl) (λ t. refl) in
    rw go (record {
      value = tt;
      state = record (z.state) {
        total_submissions = z.state.total_submissions + 1;
        total_entries = z.state.total_entries + length es;
      };
      run = ground (arith, a.run, d.run, k.run, z.run);
      post =
          submission-Submitted es d.value m a.state d.state k.state z.state v a.post d.post.0 s
            d.post.2 k.post z.post;
    })

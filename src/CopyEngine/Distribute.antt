-- ===== src/CopyEngine/Distribute.antt =====
-- The two ways in which `submit_scatter_gather` spreads its entries over the channels: each copies
-- every entry, once and in order, on channels that its mask names.
use gfd.Base.{
  ℕ, zero, suc, ◌+◌, ◌-◌, ◌*◌, ◌/◌, ◌%◌, ◌^◌, ◌<◌, ◌≤◌, ◌≡◌, refl, ap, ◌∙◌, List, [], ◌∷◌, ◌++◌,
  arith, length, drop, drop-all, slice, slice-append-drop, dec_le, bit_or-lt, min,
}
use Prim.Native.Nat.{bit_or}
use native.Mathlib.Nat.{add-zero, zero-add}
use gfd.Driver.{Driver, Succeeds, SgEntry}
use gfd.CopyEngine.{Manager, copy_all, submit_few, submit_chunks, submit_many, distribute}
use gfd.CopyEngine.Masks.{power-lt}
use gfd.CopyEngine.Runs.{Ends, copy_on-eq}
use gfd.CopyEngine.Sent.{
  Larger, Sent, Sent-append, Sent-cast, Sent-none, Sent-one, Sent-reset, Sent-step, bit_or-left,
  bit_or-right, copied_on,
}

module _ (drv : Driver) (ok : Succeeds drv) where
  copy_all-Sent :
      (ch : ℕ) (es : List SgEntry) (m : Manager)
      → ch < 4
      → Ends
          (copy_all drv ch es m)
          (λ _ m'. Sent (2 ^ ch) es m m' × (m'.next_channel ≡ m.next_channel))
  unfolding copy_all
  copy_all-Sent ch [] m h = record {
    value = tt;
    state = m;
    run = refl;
    post = (Sent-none (2 ^ ch) m m refl refl refl refl refl refl refl refl, refl);
  }
  copy_all-Sent ch (e ∷ es) m h =
      let ih = copy_all-Sent ch es (copied_on ch e m) h in
      record {
        value = tt;
        state = ih.state;
        run = rw (copy_on-eq drv ok ch e m) ih.run;
        post = (
          Sent-append (2 ^ ch) (2 ^ ch) (e ∷ []) es m (copied_on ch e m) ih.state (λ c hc x. x)
              (Sent-one ch e m h) ih.post.0,
          ih.post.1,
        );
      }

  submit_few-Sent :
      (es : List SgEntry) (mask : ℕ) (m : Manager)
      → mask < 16
      → m.num_channels ≤ 3
      → m.next_channel < m.num_channels
      → Ends (submit_few drv es mask m) (λ mask' m'.
        (mask' < 16) × Larger mask' mask × Sent mask' es m m' × (m'.next_channel < m'.num_channels))
  unfolding submit_few
  submit_few-Sent [] mask m hm h3 hn = record {
    value = mask;
    state = m;
    run = refl;
    post = (hm, λ c hc x. x, Sent-none mask m m refl refl refl refl refl refl refl refl, hn);
  }
  submit_few-Sent (e ∷ es) mask m hm h3 hn =
      let ch = m.next_channel in
      let bit = power-lt ch (omega arith) in
      let step : Manager = record m { next_channel = (ch + 1) % m.num_channels } in
      let ih =
        submit_few-Sent es (bit_or mask (2 ^ ch)) (copied_on ch e step)
          (bit_or-lt mask (2 ^ ch) hm bit) h3 (omega arith) in
      let s = ih.post in
      record {
        value = ih.value;
        state = ih.state;
        run = rw (copy_on-eq drv ok ch e step) ih.run;
        post = (
          s.0,
          λ c hc x. bit_or-left mask (2 ^ ch) hm bit c hc (s.1 c hc x),
          Sent-append (2 ^ ch) ih.value (e ∷ []) es m (copied_on ch e step) ih.state
              (λ c hc x. bit_or-right mask (2 ^ ch) hm bit c hc (s.1 c hc x))
              (Sent-step ch e m step (omega arith)) s.2,
          s.3,
        );
      }

  -- The channels left, `n` of them from `ch` on, copy the entries from `ch * chunk_size` on.
  submit_chunks-Sent :
      (n ch chunk_size : ℕ) (es : List SgEntry) (mask : ℕ) (m : Manager)
      → mask < 16
      → ch + n ≤ 3
      → length es ≤ (ch + n) * chunk_size
      → Ends (submit_chunks drv n ch chunk_size es mask m) (λ mask' m'.
        (mask' < 16)
        × Larger mask' mask
        × Sent mask' (drop (ch * chunk_size) es) m m'
        × (m'.next_channel ≡ m.next_channel))
  unfolding submit_chunks
  submit_chunks-Sent zero ch chunk_size es mask m hm h3 hl =
      let e : drop (ch * chunk_size) es ≡ [] =
        drop-all (ch * chunk_size) es
          (omega (arith, ap (λ (t : ℕ). t * chunk_size) (add-zero ch))) in
      record {
        value = mask;
        state = m;
        run = refl;
        post = (
          hm,
          λ c hc x. x,
          rw e (Sent-none mask m m refl refl refl refl refl refl refl refl),
          refl,
        );
      }
  submit_chunks-Sent (suc n) ch chunk_size es mask m hm h3 hl =
      elim (dec_le (length es) (ch * chunk_size)) [
        | yes none_left ↦
            let e = drop-all (ch * chunk_size) es none_left in
            record {
              value = mask;
              state = m;
              run = ground arith;
              post = (
                hm,
                λ c hc x. x,
                rw e (Sent-none mask m m refl refl refl refl refl refl refl refl),
                refl,
              );
            }
        | no some_left ↦
            let start = ch * chunk_size in
            let part = slice start (min (start + chunk_size) (length es)) es in
            let bit = power-lt ch (omega arith) in
            let now = copy_all-Sent ch part m (omega arith) in
            let ih =
              submit_chunks-Sent n (ch + 1) chunk_size es (bit_or mask (2 ^ ch)) now.state
                (bit_or-lt mask (2 ^ ch) hm bit) (omega arith) (omega arith) in
            let s = ih.post in
            let whole : part ++ drop ((ch + 1) * chunk_size) es ≡ drop start es =
              let e : (ch + 1) * chunk_size ≡ start + chunk_size = omega arith in
              rw e (slice-append-drop start chunk_size es) in
            record {
              value = ih.value;
              state = ih.state;
              run = ground (arith, now.run, ih.run);
              post = (
                s.0,
                λ c hc x. bit_or-left mask (2 ^ ch) hm bit c hc (s.1 c hc x),
                Sent-cast whole (
                    Sent-append (2 ^ ch) ih.value part (drop ((ch + 1) * chunk_size) es) m now.state
                      ih.state (λ c hc x. bit_or-right mask (2 ^ ch) hm bit c hc (s.1 c hc x))
                      now.post.0 s.2),
                s.3 ∙ now.post.1,
              );
            }
      ]

  ceiling : (len num : ℕ) → 0 < num → num ≤ 3 → len ≤ num * ((len + num - 1) / num)
  ceiling len num hp h3 = omega arith

  pub distribute-Sent :
      (es : List SgEntry) (m : Manager)
      → 0 < m.num_channels
      → m.num_channels ≤ 3
      → m.next_channel < m.num_channels
      → Ends
          (distribute drv es m)
          (λ mask m'. (mask < 16) × Sent mask es m m' × (m'.next_channel < m'.num_channels))
  unfolding distribute submit_many
  distribute-Sent es m hp h3 hn = elim (dec_le (length es) m.num_channels) [
    | yes few ↦
        let r = submit_few-Sent es 0 m (omega arith) h3 hn in
        record {
          value = r.value;
          state = r.state;
          run = ground (arith, r.run);
          post = (r.post.0, r.post.2, r.post.3);
        }
    | no many ↦
        let size = (length es + m.num_channels - 1) / m.num_channels in
        let from_start : 0 * size ≡ 0 = omega arith in
        let r =
          submit_chunks-Sent m.num_channels 0 size es 0 m (omega arith) (omega arith)
            (rw zero-add (ceiling (length es) m.num_channels hp h3)) in
        record {
          value = r.value;
          state = record (r.state) { next_channel = 0 };
          run = ground (arith, r.run);
          post = (
            r.post.0,
            Sent-reset 0 (Sent-cast (ap (λ k. drop k es) from_start) r.post.2),
            omega (arith, r.post.2.number),
          );
        }
  ]

-- ===== src/ProcessBatch/Issued.antt =====
-- What one submission, and the calls for a staging buffer, do to the manager.
use gfd.Base.{
  ℕ, ◌+◌, ◌-◌, ◌%◌, ◌≡◌, refl, sym, ap, subst, ◌∙◌, true, false, arith, not, inl, inr, List, [],
  ◌∷◌,
}
use gfd.Driver.{Driver, Succeeds, SgEntry, channel, staging_event, event_record, event_synchronize}
use gfd.Driver.Clock.{copies}
use gfd.CopyEngine.{Manager, ignore, submit_scatter_gather, record_event_on_last_stream}
use gfd.CopyEngine.Runs.{check-eq}
use gfd.CopyEngine.Sent.{onto}
use gfd.CopyEngine.Submit.{IsValid, submit_scatter_gather_copies}
use gfd.Poller.{submit}

-- The copies `es` were issued, in this order, by a manager that stays ready.
pub record Sends (es : List SgEntry) (m m' : Manager) : Type 0 where
  pub valid : IsValid m'
  pub ready : m'.initialized ≡ true
  pub copied : copies m'.trace ≡ onto es (copies m.trace)

submit_nothing : (drv : Driver) (m : Manager) → submit drv [] m ≡ m
unfolding submit_scatter_gather
submit_nothing drv m = ground arith

module _ (drv : Driver) (ok : Succeeds drv) where
  pub submit-Sends :
      (es : List SgEntry) (m : Manager)
      → IsValid m
      → m.initialized ≡ true
      → Sends es m (submit drv es m)
  submit-Sends [] m v r =
      subst (Sends [] m) (sym (submit_nothing drv m))
        (record { valid = v; ready = r; copied = refl })
  submit-Sends (e ∷ es) m v r =
      let s = submit_scatter_gather_copies drv ok (e ∷ es) m v r (omega arith) in
      let done : Sends (e ∷ es) m s.state = record {
        valid = s.post.valid;
        ready = s.post.open_ ∙ r;
        copied = s.post.copied;
      } in
      subst (Sends (e ∷ es) m) (ap (λ x. x.1) (sym s.run)) done

-- Waiting for the event of a staging buffer only ends copies.
pub synchronize-Sends :
    (drv : Driver) (b : ℕ) (m : Manager)
    → IsValid m
    → m.initialized ≡ true
    → Sends [] m (ignore drv (event_synchronize (staging_event b)) m).1
unfolding ignore
synchronize-Sends drv b m v r = record {
  valid = record {
    some_channel = v.some_channel;
    few_channels = v.few_channels;
    next_in = v.next_in;
    mask_small = v.mask_small;
    covered = λ c hc. elim (v.covered c hc) [
      | inl done ↦ inl (ground (arith, done))
      | inr marked ↦ inr marked
    ];
  };
  ready = r;
  copied = refl;
}

-- Recording the event of a staging buffer moves no mark of a channel.
pub record_event-Sends :
    (drv : Driver) (ok : Succeeds drv) (b : ℕ) (es : List SgEntry) (m m' : Manager)
    → Sends es m m'
    → Sends es m (record_event_on_last_stream drv (staging_event b) m').1
unfolding record_event_on_last_stream
record_event-Sends drv ok b es m m' s =
    let last = (m'.next_channel + m'.num_channels - 1) % m'.num_channels in
    let c = event_record (staging_event b) (channel last) in
    let go : not m'.initialized ≡ false = ground (arith, s.ready) in
    rw (go, check-eq drv ok c m')
      (record {
        valid = record {
          some_channel = s.valid.some_channel;
          few_channels = s.valid.few_channels;
          next_in = s.valid.next_in;
          mask_small = s.valid.mask_small;
          covered = s.valid.covered;
        };
        ready = s.ready;
        copied = s.copied;
      })

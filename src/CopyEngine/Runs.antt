-- ===== src/CopyEngine/Runs.antt =====
-- Runs of the manager's methods against a driver that reports no error: each method ends with
-- success, in a state that the rules below describe.
use gfd.Base.{ℕ, ◌+◌, ◌≡◌, refl, ap, ◌∙◌, List, ◌∷◌, arith, inl, inr, Bool-cases}
use gfd.Driver.{
  Call, Driver, Succeeds, SgEntry, channel, channel_event, event_record, event_synchronize,
  memcpy_htod_async,
}
use gfd.Driver.Clock.{Clock, clock, copies, tick}
use gfd.CopyEngine.{
  Manager, CuResult, success, M, after, check, unpinned, copy_on, record_all, synchronize_all,
}

-- The run ends with success, in a state with `Q`.
pub record Ends {A : Type 0} (r : CuResult A × Manager) (Q : A → Manager → Type 0) : Type 0 where
  pub value : A
  pub state : Manager
  pub run : r ≡ (success value, state)
  pub post : Q value state

-- A run that ends, then what follows.
pub after-Ends :
    {A B : Type 0} {r : CuResult A × Manager} {Q : A → Manager → Type 0} (f : A → M B)
    (R : B → Manager → Type 0) (e : Ends r Q)
    → Ends (f e.value e.state) R
    → Ends (after r f) R
after-Ends f R e h = record {
  value = h.value;
  state = h.state;
  run = ap (λ r. after r f) e.run ∙ h.run;
  post = h.post;
}

pub Ends-map :
    {A : Type 0} {r : CuResult A × Manager} {Q : A → Manager → Type 0} (R : A → Manager → Type 0)
    (e : Ends r Q)
    → R e.value e.state
    → Ends r R
Ends-map R e h = record { value = e.value; state = e.state; run = e.run; post = h }

abbrev pub called : Call → Manager → Manager
called c m = record m { trace = c ∷ m.trace }

-- Calls were made that say nothing about copies.
pub record Unmoved (m m' : Manager) : Type 0 where
  pub same : m' ≡ record m { trace = m'.trace }
  pub clocks : clock m'.trace ≡ clock m.trace
  pub copied : copies m'.trace ≡ copies m.trace

module _ (drv : Driver) (ok : Succeeds drv) where
  pub check-eq : (c : Call) (m : Manager) → check drv c m ≡ (success tt, called c m)
  unfolding check
  check-eq c m = let e = ok (c ∷ m.trace) in ground (arith, e)

  pub copy_on-eq :
      (ch : ℕ) (e : SgEntry) (m : Manager)
      → copy_on drv ch e m ≡ (
        success tt,
        record m {
          trace = memcpy_htod_async e (channel ch) ∷ m.trace;
          total_bytes = m.total_bytes + e.size;
        },
      )
  unfolding copy_on
  copy_on-eq ch e m = rw (check-eq (memcpy_htod_async e (channel ch)) m)

  pub record_all-eq :
      (ch : ℕ) (cs : List ℕ) (m : Manager)
      → record_all drv (ch ∷ cs) m
        ≡ record_all drv cs (called (event_record (channel_event ch) (channel ch)) m)
  unfolding record_all
  record_all-eq ch cs m = rw (check-eq (event_record (channel_event ch) (channel ch)) m)

  pub synchronize_all-eq :
      (ch : ℕ) (cs : List ℕ) (m : Manager)
      → synchronize_all drv (ch ∷ cs) m
        ≡ synchronize_all drv cs (called (event_synchronize (channel_event ch)) m)
  unfolding synchronize_all
  synchronize_all-eq ch cs m = rw (check-eq (event_synchronize (channel_event ch)) m)

  -- The push or pop of the context, if it is called at all.
  pub unpinned-Unmoved :
      (c : Call) (m : Manager)
      → ((k : Clock) → tick c k ≡ k)
      → ((t : List Call) → copies (c ∷ t) ≡ copies t)
      → Ends (unpinned drv c m) (λ _ m'. Unmoved m m')
  unfolding unpinned
  unpinned-Unmoved c m still none = elim (Bool-cases m.context_pinned) [
    | inl e ↦ record {
      value = tt;
      state = m;
      run = ground (arith, e);
      post = record { same = refl; clocks = refl; copied = refl };
    }
    | inr e ↦ record {
      value = tt;
      state = called c m;
      run = ground (arith, e, check-eq c m);
      post = record { same = refl; clocks = still (clock m.trace); copied = none m.trace };
    }
  ]

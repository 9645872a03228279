-- ===== src/CopyEngine/Tests.antt =====
-- Concrete runs of src/copy_engine.cpp, against a driver that never fails and one that fails once.
use gfd.Base.{ℕ, ◌+◌, ◌≡◌, refl, true, false, [], ◌∷◌, arith, inl}
use gfd.Driver.{Driver, Succeeds, SgEntry, staging_event}
use gfd.Driver.Clock.{clock, copies}
use gfd.CopyEngine.{
  Manager, ◌>>◌, submit_scatter_gather, submit_and_wait, record_event_on_last_stream,
}
use gfd.CopyEngine.Runs.{Ends}
use gfd.CopyEngine.Sent.{onto}
use gfd.CopyEngine.Submit.{IsValid, Submitted, submit_scatter_gather_copies}
use gfd.CopyEngine.Wait.{Drained, submit_and_wait_completes}
use gfd.CopyEngine.Hazards.{idle_manager, many_runs_not_covered}

abbrev pub ready : Manager
ready = record {
  streams = λ c. true;
  events = λ c. true;
  num_channels = 3;
  initialized = true;
  context_pinned = false;
  next_channel = 1;
  dirty_mask = 0;
  total_submissions = 0;
  total_entries = 0;
  total_bytes = 0;
  trace = [];
}

abbrev pub no_error : Driver
no_error t = 0

pub no_error-Succeeds : Succeeds no_error
no_error-Succeeds t = refl

pub ready-IsValid : IsValid ready
ready-IsValid = record {
  some_channel = omega arith;
  few_channels = omega arith;
  next_in = omega arith;
  mask_small = omega arith;
  covered = λ c hc. inl (omega arith);
}

abbrev pub entry : ℕ → SgEntry
entry n = record { dst = n; src = 1000 + n; size = 16 }

submit_scatter_gather_copies_example :
    Ends
      (submit_scatter_gather no_error (entry 0 ∷ entry 1 ∷ []) ready)
      (λ _ m'. Submitted (entry 0 ∷ entry 1 ∷ []) ready m')
submit_scatter_gather_copies_example =
    submit_scatter_gather_copies no_error no_error-Succeeds (entry 0 ∷ entry 1 ∷ []) ready
      ready-IsValid refl (omega arith)

submit_and_wait_completes_example :
    Ends (submit_and_wait no_error (entry 0 ∷ entry 1 ∷ []) ready) (λ _ m'.
      (copies m'.trace ≡ onto (entry 0 ∷ entry 1 ∷ []) (copies ready.trace))
      × Drained m'
      × IsValid m')
submit_and_wait_completes_example =
    submit_and_wait_completes no_error no_error-Succeeds (entry 0 ∷ entry 1 ∷ []) ready
      ready-IsValid refl (omega arith)

many_runs_not_covered_example :
    let r =
      (do
        submit_scatter_gather no_error (entry 0 ∷ entry 1 ∷ entry 2 ∷ entry 3 ∷ [])
        record_event_on_last_stream no_error (staging_event 4))
        (idle_manager ready) in
    let k = clock r.1.trace in
    ((k.staging_mark 4).on ≡ 2)
    × ((k.staging_mark 4).upto ≡ (clock ready.trace).issued 2)
    × (k.issued 2 ≡ (clock ready.trace).issued 2)
    × (k.issued 0 ≡ (clock ready.trace).issued 0 + 2)
    × (k.issued 1 ≡ (clock ready.trace).issued 1 + 2)
many_runs_not_covered_example =
    many_runs_not_covered (entry 0) (entry 1) (entry 2) (entry 3) 4 ready

-- ===== src/Gather/Handshake.antt =====
-- The two flags between the calling thread and one worker, as a system of steps, one for each store or
-- successful test: src/parallel_gather.cpp, gather_worker_loop and parallel_gather.
use gfd.Base.{ℕ, ◌+◌, ◌≡◌, ◌≢◌, refl, Bool, true, false, Bool-cases, ◌⊎◌, inl, inr, arith}

pub data CallerAt : Type 0 where
  outside armed waiting : CallerAt

pub data WorkerAt : Type 0 where
  testing working finishing : WorkerAt

-- `rounds` counts the tasks handed out, `completed` the tasks run.
pub record Flags : Type 0 where
  pub has_work : Bool
  pub done : Bool
  pub caller : CallerAt
  pub worker : WorkerAt
  pub rounds : ℕ
  pub completed : ℕ

abbrev pub rest : Flags
rest = record {
  has_work = false;
  done = false;
  caller = CallerAt.outside;
  worker = WorkerAt.testing;
  rounds = 0;
  completed = 0;
}

abbrev pub armed_flags : Flags → Flags
armed_flags f = record f { done = false; caller = CallerAt.armed; rounds = f.rounds + 1 }

abbrev pub posted : Flags → Flags
posted f = record f { has_work = true; caller = CallerAt.waiting }

abbrev pub cleared : Flags → Flags
cleared f = record f { has_work = false; worker = WorkerAt.testing }

pub data Move (f : Flags) : Flags → Type 0 where
  arm : f.caller ≡ CallerAt.outside → Move f (armed_flags f)
  post : f.caller ≡ CallerAt.armed → Move f (posted f)
  return_ :
      f.caller ≡ CallerAt.waiting → f.done ≡ true → Move f (record f { caller = CallerAt.outside })
  begin :
      f.worker ≡ WorkerAt.testing
      → f.has_work ≡ true
      → Move f (record f { worker = WorkerAt.working })
  finish :
      f.worker ≡ WorkerAt.working
      → Move f (record f { done = true; worker = WorkerAt.finishing; completed = f.completed + 1 })
  clear : f.worker ≡ WorkerAt.finishing → Move f (cleared f)

pub data Run : Flags → Type 0 where
  at_rest : Run rest
  then_ : {f g : Flags} → Run f → Move f g → Run g

record Agree (f : Flags) : Type 0 where
  none_open : f.caller ≡ CallerAt.outside → (f.completed ≡ f.rounds) × (f.worker ≢ WorkerAt.working)
  opening :
      f.caller ≡ CallerAt.armed
      → (f.completed + 1 ≡ f.rounds) × (f.done ≡ false) × (f.worker ≢ WorkerAt.working)
  closed :
      f.caller ≡ CallerAt.waiting
      → f.done ≡ true
      → (f.completed ≡ f.rounds) × (f.worker ≢ WorkerAt.working)
  open_ : f.caller ≡ CallerAt.waiting → f.done ≡ false → f.completed + 1 ≡ f.rounds
  seen :
      f.worker ≡ WorkerAt.testing
      → f.has_work ≡ true
      → (f.caller ≡ CallerAt.waiting) × (f.done ≡ false)

caller_cases :
    (c : CallerAt) → (c ≡ CallerAt.outside) ⊎ ((c ≡ CallerAt.armed) ⊎ (c ≡ CallerAt.waiting))
caller_cases outside = inl refl
caller_cases armed = inr (inl refl)
caller_cases waiting = inr (inr refl)

working_inside :
    (f : Flags)
    → Agree f
    → f.worker ≡ WorkerAt.working
    → (f.caller ≡ CallerAt.waiting) × (f.done ≡ false)
working_inside f a h = elim (caller_cases f.caller) [
  | inl out ↦ absurd ((a.none_open out).1 h)
  | inr (inl ready) ↦ absurd ((a.opening ready).2 h)
  | inr (inr wait) ↦ elim (Bool-cases f.done) [
    | inl d ↦ absurd ((a.closed wait d).1 h)
    | inr d ↦ (wait, d)
  ]
]

Move-Agree : {f g : Flags} → Agree f → Move f g → Agree g
Move-Agree {f} a (arm h) = record {
  none_open = λ e. absurd (ground arith);
  opening = λ e. ground (arith, a.none_open);
  closed = λ e. absurd (ground arith);
  open_ = λ e. absurd (ground arith);
  seen = λ e k. absurd (ground (arith, a.seen, h));
}
Move-Agree {f} a (post h) = record {
  none_open = λ e. absurd (ground arith);
  opening = λ e. absurd (ground arith);
  closed = λ e d. absurd (ground (arith, a.opening));
  open_ = λ e d. ground (arith, a.opening);
  seen = λ e k. ground (arith, a.opening);
}
Move-Agree {f} a (return_ h d) = record {
  none_open = λ e. a.closed h d;
  opening = λ e. absurd (ground arith);
  closed = λ e. absurd (ground arith);
  open_ = λ e. absurd (ground arith);
  seen = λ e k. absurd (ground (arith, a.seen, e, k, d));
}
Move-Agree {f} a (begin h d) =
    let now = a.seen h d in
    record {
      none_open = λ e. absurd (ground (arith, e, now));
      opening = λ e. absurd (ground (arith, e, now));
      closed = λ e k. absurd (ground (arith, k, now));
      open_ = a.open_;
      seen = λ e k. absurd (ground arith);
    }
Move-Agree {f} a (finish h) =
    let now = working_inside f a h in
    record {
      none_open = λ e. absurd (ground (arith, e, now));
      opening = λ e. absurd (ground (arith, e, now));
      closed = λ e k. (a.open_ now.0 now.1, λ x. absurd (ground arith));
      open_ = λ e k. absurd (ground arith);
      seen = λ e k. absurd (ground arith);
    }
Move-Agree {f} a (clear h) = record {
  none_open = λ e. ground (arith, a.none_open);
  opening = λ e. ground (arith, a.opening);
  closed = λ e k. ground (arith, a.closed);
  open_ = a.open_;
  seen = λ e k. absurd (ground arith);
}

Run-Agree : {f : Flags} → Run f → Agree f
Run-Agree at_rest = record {
  none_open = λ e. ground arith;
  opening = λ e. absurd (ground arith);
  closed = λ e. absurd (ground arith);
  open_ = λ e. absurd (ground arith);
  seen = λ e k. absurd (ground arith);
}
Run-Agree (then_ r m) = Move-Agree (Run-Agree r) m

-- Whatever the caller and the worker do first, when the caller has seen `done` and goes on, the worker
-- has run every task that was handed out, and is running none.
pub returns_after_work :
    {f : Flags}
    → Run f
    → (f.caller ≡ CallerAt.waiting → f.done ≡ true → f.completed ≡ f.rounds)
      × (f.caller ≡ CallerAt.outside → (f.completed ≡ f.rounds) × (f.worker ≢ WorkerAt.working))
returns_after_work r = let a = Run-Agree r in (λ e d. (a.closed e d).0, a.none_open)

-- The worker stores `done` before it clears `has_work`. If the caller returns and hands out its next
-- task between the two stores, the worker's late store takes the new task away: the task is not
-- run, the caller waits, and neither of them can move again.
pub late_clear_blocks :
    {f : Flags}
    → Run f
    → f.caller ≡ CallerAt.outside
    → f.worker ≡ WorkerAt.finishing
    → let stuck = cleared (posted (armed_flags f)) in
      Run stuck
      × (stuck.caller ≡ CallerAt.waiting)
      × (stuck.completed + 1 ≡ stuck.rounds)
      × ((g : Flags) → ¬ Move stuck g)
late_clear_blocks {f} r out fin = (
  then_ (then_ (then_ r (arm out)) (post refl)) (clear fin),
  refl,
  ground (arith, (Run-Agree r).none_open out),
  λ g m. blocked m,
)
  where
    blocked : {g : Flags} → ¬ Move (cleared (posted (armed_flags f))) g
    blocked (arm h) = ground arith
    blocked (post h) = ground arith
    blocked (return_ h d) = ground arith
    blocked (begin h d) = ground arith
    blocked (finish h) = ground arith
    blocked (clear h) = ground arith

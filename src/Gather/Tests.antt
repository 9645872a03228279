-- ===== src/Gather/Tests.antt =====
-- Concrete gathers and a concrete race.
use gfd.Base.{
  map, subst, sym, ◌∙◌, ltb, if◌then◌else◌, ◌-◌, ℕ, inl, inr, arith, ◌+◌, ◌≡◌, ◌≢◌, refl, true,
  List, [], ◌∷◌,
}
use gfd.Driver.{SgEntry}
use gfd.Memory.{Memory}
use gfd.Memory.Cover.{In, covers}
use gfd.Memory.Concurrent.{SameBytes}
use gfd.Gather.{staged, gather_entries, parallel_gather}
use gfd.Gather.Parts.{parallel_gather-gather_entries}
use gfd.Gather.Handshake.{
  Flags, Move, Run, at_rest, then_, arm, post, return_, begin, finish, CallerAt, WorkerAt,
  armed_flags, posted, cleared, returns_after_work, late_clear_blocks,
}

abbrev scattered : List SgEntry
scattered =
    record { dst = 104; src = 9; size = 4 }
    ∷ record { dst = 100; src = 50; size = 4 }
    ∷ record { dst = 108; src = 7; size = 4 }
    ∷ []

abbrev host : Memory
host p = p

abbrev zeros : Memory
zeros p = 0

-- The three places in the buffer, 4 bytes each, do not overlap: the source of a byte is known from its
-- place.
source_of :
    (e : SgEntry) (p : ℕ)
    → In e (map (staged 100) scattered)
    → covers e p ≡ true
    → e.src + (p - e.dst)
      ≡ (if ltb p 4 then 50 + p else if ltb p 8 then 9 + (p - 4) else 7 + (p - 8))
unfolding covers
source_of e p (inl a) hit = rw a (ground (arith, subst (λ x. covers x p ≡ true) a hit))
source_of e p (inr (inl a)) hit = rw a (ground (arith, subst (λ x. covers x p ≡ true) a hit))
source_of e p (inr (inr (inl a))) hit = rw a (ground (arith, subst (λ x. covers x p ≡ true) a hit))
source_of e p (inr (inr (inr a))) hit = absurd a

scattered-SameBytes : SameBytes host (map (staged 100) scattered)
scattered-SameBytes e f p m n hit hit' = source_of e p m hit ∙ sym (source_of f p n hit')

parallel_gather-gather_entries_example :
    parallel_gather host 3 scattered 100 (2 ∷ 0 ∷ 2 ∷ []) zeros
    ≡ gather_entries host 100 scattered zeros
parallel_gather-gather_entries_example =
    parallel_gather-gather_entries host 3 scattered 100 (2 ∷ 0 ∷ 2 ∷ []) zeros scattered-SameBytes

-- One round, up to the store of `done` and the caller's return.
abbrev after_return : Flags
after_return = record {
  has_work = true;
  done = true;
  caller = CallerAt.outside;
  worker = WorkerAt.finishing;
  rounds = 1;
  completed = 1;
}

after_return-Run : Run after_return
after_return-Run =
    then_
      (then_ (then_ (then_ (then_ at_rest (arm refl)) (post refl)) (begin refl refl)) (finish refl))
      (return_ refl refl)

returns_after_work_example :
    (after_return.caller ≡ CallerAt.waiting
      → after_return.done ≡ true
      → after_return.completed ≡ after_return.rounds)
    × (after_return.caller ≡ CallerAt.outside
        → (after_return.completed ≡ after_return.rounds) × (after_return.worker ≢ WorkerAt.working))
returns_after_work_example = returns_after_work after_return-Run

late_clear_blocks_example :
    let stuck = cleared (posted (armed_flags after_return)) in
    Run stuck
    × (stuck.caller ≡ CallerAt.waiting)
    × (stuck.completed + 1 ≡ stuck.rounds)
    × ((g : Flags) → ¬ Move stuck g)
late_clear_blocks_example = late_clear_blocks after_return-Run refl refl

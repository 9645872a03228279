-- ===== src/DirectSubmit/Tests.antt =====
-- A direct submission through the first of two staging buffers.
use gfd.Base.{
  ℕ, subst, ◌+◌, ◌*◌, ◌≡◌, ◌<◌, ◌≤◌, refl, true, arith, inl, inr, [], ◌∷◌, List, ◌⊎◌, dec_lt,
}
use gfd.Driver.{SgEntry}
use gfd.Memory.Cover.{In, covers}
use gfd.Memory.Concurrent.{SameBytes}
use gfd.Coalesce.Sound.{and_entry, no_entry}
use gfd.CopyEngine.Tests.{ready, ready-IsValid, no_error, no_error-Succeeds}
use gfd.ProcessBatch.Tests.{idle}
use gfd.DirectSubmit.{DirectSubmitter, submit_direct}
use gfd.DirectSubmit.Pipeline.{Buffers, SourcesFree}
use gfd.DirectSubmit.Copies.{Landed, submit_direct-Landed}

abbrev submitter : DirectSubmitter
submitter = record { direct_ce = ready; base = idle }

idle-Buffers : Buffers idle
idle-Buffers = record { room = λ b h. omega arith; apart = λ b c h k ne. buffers_apart b c h k ne }
  where
    buffers_apart :
        (b c : ℕ)
        → b < 2
        → c < 2
        → ¬ b ≡ c
        → (4096 * (b + 1) + 64 ≤ 4096 * (c + 1)) ⊎ (4096 * (c + 1) + 64 ≤ 4096 * (b + 1))
    buffers_apart b c h k ne = elim (dec_lt b c) [
      | yes lt ↦ inl (omega arith)
      | no ge ↦ inr (omega (arith, ge, ne))
    ]

-- Two pieces from different places, with destinations side by side.
abbrev pieces : List SgEntry
pieces = record { dst = 0; src = 100; size = 16 } ∷ record { dst = 16; src = 500; size = 16 } ∷ []

pieces_below : (e : SgEntry) → In e pieces → e.src + e.size < 1000
pieces_below e (inl a) = rw a (omega arith)
pieces_below e (inr (inl a)) = rw a (omega arith)
pieces_below e (inr (inr a)) = absurd a

pieces-SourcesFree : SourcesFree idle pieces
pieces-SourcesFree e x m lo hi b lt = inl (omega (arith, pieces_below e m))

not_both :
    (p : ℕ)
    → covers (record { dst = 0; src = 100; size = 16 }) p ≡ true
    → covers (record { dst = 16; src = 500; size = 16 }) p ≡ true
    → ⊥
unfolding covers
not_both p h k = ground (arith, h, k)

pieces-SameBytes : SameBytes idle.host pieces
unfolding covers
pieces-SameBytes e f p (inl a) (inl b) hit hit' = rw (a, b) refl
pieces-SameBytes e f p (inr (inl a)) (inr (inl b)) hit hit' = rw (a, b) refl
pieces-SameBytes e f p (inl a) (inr (inl b)) hit hit' =
    absurd
      (not_both p (subst (λ x. covers x p ≡ true) a hit) (subst (λ x. covers x p ≡ true) b hit'))
pieces-SameBytes e f p (inr (inl a)) (inl b) hit hit' =
    absurd
      (not_both p (subst (λ x. covers x p ≡ true) b hit') (subst (λ x. covers x p ≡ true) a hit))
pieces-SameBytes e f p (inr (inr a)) n hit hit' = absurd a
pieces-SameBytes e f p (inl a) (inr (inr b)) hit hit' = absurd b
pieces-SameBytes e f p (inr (inl a)) (inr (inr b)) hit hit' = absurd b

submit_direct-Landed_example :
    ((submit_direct no_error pieces submitter).1 ≡ true)
    × Landed pieces submitter (submit_direct no_error pieces submitter).0
submit_direct-Landed_example =
    submit_direct-Landed no_error no_error-Succeeds pieces submitter ready-IsValid refl idle-Buffers
      (omega arith)
      (and_entry (record { dst_ends = omega arith; src_ends = omega arith })
        (and_entry (record { dst_ends = omega arith; src_ends = omega arith }) no_entry))
      pieces-SameBytes pieces-SourcesFree

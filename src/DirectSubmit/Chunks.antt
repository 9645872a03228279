-- ===== src/DirectSubmit/Chunks.antt =====
-- A part of a list of entries with destinations side by side is such a list, and no larger.
use gfd.Base.{
  ℕ, zero, suc, ◌+◌, ◌-◌, ◌^◌, ◌<◌, ◌≤◌, ◌≡◌, refl, ◌∙◌, true, arith, inl, inr, List, [], ◌∷◌, take,
  drop, slice,
}
use gfd.Queue.{add64}
use gfd.Driver.{SgEntry}
use gfd.Memory.Cover.{In}
use gfd.CopyEngine.Sent.{sum_sizes}
use gfd.Coalesce.{sum_bytes}
use gfd.Coalesce.Sound.{AllInRange, and_entry, AllInRange-In, In-AllInRange}
use gfd.Staging.{dst_after}

-- The destinations of the list follow one another.
abbrev pub Side : List SgEntry → Type 0
Side [] = Unit {0}
Side (e ∷ es) = dst_after e es ≡ true

Side-tail : (e : SgEntry) (es : List SgEntry) → Side (e ∷ es) → Side es
unfolding dst_after
Side-tail e [] h = tt
Side-tail e (f ∷ fs) h = ground (arith, h)

Side-drop : (k : ℕ) (es : List SgEntry) → Side es → Side (drop k es)
Side-drop zero es h = h
Side-drop (suc k) [] h = tt
Side-drop (suc k) (e ∷ es) h = Side-drop k es (Side-tail e es h)

dst_after-take :
    (k : ℕ) (e : SgEntry) (es : List SgEntry)
    → dst_after e es ≡ true
    → dst_after e (take k es) ≡ true
unfolding dst_after
dst_after-take zero e es h = refl
dst_after-take (suc k) e [] h = refl
dst_after-take (suc k) e (f ∷ fs) h =
    let later = dst_after-take k f fs (ground (arith, h)) in ground (arith, h, later)

Side-take : (k : ℕ) (es : List SgEntry) → Side es → Side (take k es)
Side-take zero es h = tt
Side-take (suc k) [] h = tt
Side-take (suc k) (e ∷ es) h = dst_after-take k e es h

In-drop : (k : ℕ) (es : List SgEntry) (e : SgEntry) → In e (drop k es) → In e es
In-drop zero es e m = m
In-drop (suc k) [] e m = m
In-drop (suc k) (x ∷ xs) e m = inr (In-drop k xs e m)

In-take : (k : ℕ) (es : List SgEntry) (e : SgEntry) → In e (take k es) → In e es
In-take zero es e m = absurd m
In-take (suc k) [] e m = m
In-take (suc k) (x ∷ xs) e (inl same) = inl same
In-take (suc k) (x ∷ xs) e (inr m) = inr (In-take k xs e m)

sum_sizes-drop-le : (k : ℕ) (es : List SgEntry) → sum_sizes (drop k es) ≤ sum_sizes es
sum_sizes-drop-le zero es = omega arith
sum_sizes-drop-le (suc k) [] = omega arith
sum_sizes-drop-le (suc k) (e ∷ es) = omega (arith, sum_sizes-drop-le k es)

sum_sizes-take-le : (k : ℕ) (es : List SgEntry) → sum_sizes (take k es) ≤ sum_sizes es
sum_sizes-take-le zero es = omega arith
sum_sizes-take-le (suc k) [] = omega arith
sum_sizes-take-le (suc k) (e ∷ es) = omega (arith, sum_sizes-take-le k es)

module _ (start end : ℕ) (es : List SgEntry) where
  pub Side-slice : Side es → Side (slice start end es)
  Side-slice h = Side-take (end - start) (drop start es) (Side-drop start es h)

  pub In-slice : (e : SgEntry) → In e (slice start end es) → In e es
  In-slice e m = In-drop start es e (In-take (end - start) (drop start es) e m)

  pub AllInRange-slice : AllInRange es → AllInRange (slice start end es)
  AllInRange-slice r =
      In-AllInRange (slice start end es) (λ e m. AllInRange-In es e r (In-slice e m))

  pub sum_sizes-slice-le : sum_sizes (slice start end es) ≤ sum_sizes es
  sum_sizes-slice-le =
      omega (arith, sum_sizes-take-le (end - start) (drop start es), sum_sizes-drop-le start es)

pub Side-sum_sizes :
    (e : SgEntry) (es : List SgEntry)
    → AllInRange (e ∷ es)
    → dst_after e es ≡ true
    → e.dst + sum_sizes (e ∷ es) < 2 ^ 64
unfolding dst_after
Side-sum_sizes e [] (and_entry r rs) h = omega (arith, r.dst_ends)
Side-sum_sizes e (f ∷ fs) (and_entry r rs) h =
    let next : f.dst ≡ e.dst + e.size = ground (arith, h, r.dst_ends) in
    omega (arith, next, Side-sum_sizes f fs rs (ground (arith, h)))

pub sum_bytes-sum_sizes :
    (k : ℕ) (es : List SgEntry) → k + sum_sizes es < 2 ^ 64 → sum_bytes k es ≡ k + sum_sizes es
unfolding sum_bytes
sum_bytes-sum_sizes k [] h = omega arith
sum_bytes-sum_sizes k (e ∷ es) h =
    let sum : add64 k e.size ≡ k + e.size = omega arith in
    rw sum (sum_bytes-sum_sizes (k + e.size) es (omega arith) ∙ omega arith)

-- ===== src/Base/Loops.antt =====
-- Counted loops, and the loop of a warp: 32 lanes, each over its own residue class.
use Prim.Native.Nat.{ℕ, zero, suc, ◌+◌, ◌*◌, ◌%◌, ◌≤◌, ◌<◌}
use mathlib.Core.Path.{◌≡◌, refl, ap, ◌∙◌}
use mathlib.Core.Logic.{◌≢◌, ◌⊎◌, inr}
use native.Mathlib.Omega.{arith}
use native.Mathlib.Decide.{ℕ_discrete}
use gfd.Base.Tests.{ltb, if◌then◌else◌}
use gfd.Base.Store.{update, update_self, update_ne}

-- for (k = i; k < i + n; k++) s = body k s
unfoldable pub for_range {ℓ} : {S : Type ℓ} → ℕ → ℕ → (ℕ → S → S) → S → S
for_range zero from round state = state
for_range (suc left) from round state = for_range left (from + 1) round (round from state)

-- for (k = i; k < count; k += 32) s = body k s, with fuel
unfoldable pub strided {ℓ} : {S : Type ℓ} → ℕ → ℕ → ℕ → (ℕ → S → S) → S → S
strided zero i count body s = s
strided (suc f) i count body s =
    let rest = strided f (i + 32) count body (body i s) in if ltb i count then rest else s

-- The lanes of a warp one after the other. Each takes at most `count` rounds.
unfoldable pub warp {ℓ} : {S : Type ℓ} → ℕ → (ℕ → S → S) → S → S
unfolding for_range strided
warp count body s = for_range 32 0 (λ lane. strided count lane count body) s

-- A loop that rewrites one place of an array in each round.
module _ {ℓ} {A : Type ℓ} (key : ℕ → ℕ) (change : ℕ → A → A) (count : ℕ) where
  abbrev pub touch : ℕ → (ℕ → A) → ℕ → A
  touch i m = update m (key i) (change i (m (key i)))

  -- The place `p` is touched by no round but `j`.
  abbrev pub OnlyAt : ℕ → ℕ → Type 0
  OnlyAt p j = (i : ℕ) → i < count → key i ≡ p → i ≡ j

  strided-other :
      (f i p : ℕ) (m : ℕ → A)
      → ((k : ℕ) → k < count → key k ≢ p)
      → strided f i count touch m p ≡ m p
  unfolding strided
  strided-other zero i p m h = refl
  strided-other (suc f) i p m h =
      ground (arith, h i, strided-other f (i + 32) p (touch i m) h, update_ne m (key i) p)

  -- One lane leaves the place of `j` alone if `j` is not of its class.
  strided-miss :
      (f i j : ℕ) (m : ℕ → A)
      → j < count
      → OnlyAt (key j) j
      → (j < i) ⊎ (i % 32 ≢ j % 32)
      → strided f i count touch m (key j) ≡ m (key j)
  unfolding strided
  strided-miss zero i j m hj only h = refl
  strided-miss (suc f) i j m hj only h =
      ground (arith, only i, strided-miss f (i + 32) j (touch i m) hj only)

  strided-hit :
      (f i j : ℕ) (m : ℕ → A)
      → j < count
      → OnlyAt (key j) j
      → i ≤ j
      → i % 32 ≡ j % 32
      → j < i + 32 * f
      → strided f i count touch m (key j) ≡ change j (m (key j))
  unfolding strided
  strided-hit zero i j m hj only le e h = absurd (omega arith)
  strided-hit (suc f) i j m hj only le e h = elim (ℕ_discrete i j) [
    | yes same ↦
        ground (arith, strided-miss f (i + 32) j (touch i m) hj only, update_self m (key i))
    | no other ↦
        ground
          (arith, only i, strided-hit f (i + 32) j (touch i m) hj only, update_ne m (key i) (key j))
  ]

  lanes-other :
      (n l p : ℕ) (m : ℕ → A)
      → ((k : ℕ) → k < count → key k ≢ p)
      → for_range n l (λ lane. strided count lane count touch) m p ≡ m p
  unfolding for_range
  lanes-other zero l p m h = refl
  lanes-other (suc n) l p m h =
      lanes-other n (l + 1) p (strided count l count touch m) h ∙ strided-other count l p m h

  lanes-miss :
      (n l j : ℕ) (m : ℕ → A)
      → j < count
      → OnlyAt (key j) j
      → j % 32 < l
      → l + n ≤ 32
      → for_range n l (λ lane. strided count lane count touch) m (key j) ≡ m (key j)
  unfolding for_range
  lanes-miss zero l j m hj only h b = refl
  lanes-miss (suc n) l j m hj only h b =
      lanes-miss n (l + 1) j (strided count l count touch m) hj only (omega arith) (omega arith)
      ∙ strided-miss count l j m hj only (inr (omega arith))

  lanes-hit :
      (n l j : ℕ) (m : ℕ → A)
      → j < count
      → OnlyAt (key j) j
      → l ≤ j % 32
      → j % 32 < l + n
      → l + n ≤ 32
      → for_range n l (λ lane. strided count lane count touch) m (key j) ≡ change j (m (key j))
  unfolding for_range
  lanes-hit zero l j m hj only le h b = absurd (omega arith)
  lanes-hit (suc n) l j m hj only le h b = elim (ℕ_discrete l (j % 32)) [
    | yes same ↦
        lanes-miss n (l + 1) j (strided count l count touch m) hj only (omega arith) (omega arith)
        ∙ strided-hit count l j m hj only (omega arith) (omega arith) (omega arith)
    | no other ↦
        lanes-hit n (l + 1) j (strided count l count touch m) hj only (omega arith) (omega arith)
          (omega arith)
        ∙ ap (change j) (strided-miss count l j m hj only (inr (omega arith)))
  ]

  -- A warp makes each round exactly once, whichever lane it falls to.
  pub warp_at :
      (j : ℕ) (m : ℕ → A)
      → j < count
      → OnlyAt (key j) j
      → warp count touch m (key j) ≡ change j (m (key j))
  unfolding warp
  warp_at j m hj only = lanes-hit 32 0 j m hj only (omega arith) (omega arith) (omega arith)

  -- It leaves alone what no round names.
  pub warp_other :
      (p : ℕ) (m : ℕ → A) → ((k : ℕ) → k < count → key k ≢ p) → warp count touch m p ≡ m p
  unfolding warp
  warp_other p m h = lanes-other 32 0 p m h

-- ===== src/Staging/Buffers.antt =====
-- Filling a staging buffer changes nothing outside it, and copies depend on their sources alone.
use gfd.Base.{
  ℕ, ◌+◌, ◌-◌, ◌≤◌, ◌<◌, ◌≡◌, refl, ap, fun_ext, ◌∙◌, false, arith, ltb, leb, ◌&&◌, ◌⊎◌, inl, inr,
  List, [], ◌∷◌, Bool-cases,
}
use gfd.Driver.{SgEntry}
use gfd.Memory.{Memory, copied, copied_all}
use gfd.Memory.Cover.{In}
use gfd.Staging.{gathered}

-- The two memories agree where the entry reads.
abbrev pub AgreeFor : Memory → Memory → SgEntry → Type 0
AgreeFor m m' e = (x : ℕ) → e.src ≤ x → x < e.src + e.size → m x ≡ m' x

pub AgreeFor-copied :
    (m m' : Memory) (e : SgEntry) (device : Memory)
    → AgreeFor m m' e
    → copied m e device ≡ copied m' e device
unfolding copied
AgreeFor-copied m m' e device same = fun_ext λ p.
    elim (Bool-cases (leb e.dst p && ltb p (e.dst + e.size))) [
      | inl hit ↦ rw hit (same (e.src + (p - e.dst)) (omega arith) (ground (arith, hit)))
      | inr miss ↦ rw miss refl
    ]

pub AgreeFor-copied_all :
    (m m' : Memory) (es : List SgEntry) (device : Memory)
    → ((e : SgEntry) → In e es → AgreeFor m m' e)
    → copied_all m es device ≡ copied_all m' es device
unfolding copied_all
AgreeFor-copied_all m m' [] device same = refl
AgreeFor-copied_all m m' (e ∷ es) device same =
    ap (copied_all m es) (AgreeFor-copied m m' e device (same e (inl refl)))
    ∙ AgreeFor-copied_all m m' es (copied m' e device) (λ f n. same f (inr n))

-- The address lies outside the `size` bytes at `buf`.
abbrev pub Outside : ℕ → ℕ → ℕ → Type 0
Outside buf size x = (x < buf) ⊎ (buf + size ≤ x)

pub gathered-Outside :
    (host : Memory) (num_workers buf size : ℕ) (es : List SgEntry) (min_dst x : ℕ)
    → Outside buf size x
    → gathered host num_workers buf size es min_dst x ≡ host x
unfolding gathered
gathered-Outside host num_workers buf size es min_dst x o =
    let out : (leb buf x && ltb x (buf + size)) ≡ false = elim o [
      | inl low ↦ ground (arith, low)
      | inr high ↦ ground (arith, high)
    ] in
    rw out refl

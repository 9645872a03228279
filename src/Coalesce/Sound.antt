-- ===== src/Coalesce/Sound.antt =====
-- Merging entries that lie side by side changes nothing in the memory that the copies leave behind.
use gfd.Base.{
  ℕ, subst, ◌+◌, ◌-◌, ◌^◌, ◌<◌, ◌≤◌, ◌≡◌, refl, sym, ap, fun_ext, ◌∙◌, true, arith, ltb, ◌&&◌, List,
  [], ◌∷◌, length, dec_lt, inl, inr, Bool-cases,
}
use gfd.Queue.{add64}
use gfd.Driver.{SgEntry}
use gfd.Memory.{Memory, copied, copied_all}
use gfd.Memory.Cover.{In}
use gfd.Coalesce.{follows, contiguous_after, sum_bytes, group_copies, coalesce_after, coalesce}

-- Neither range of the entry wraps around.
pub record InRange (e : SgEntry) : Type 0 where
  pub dst_ends : e.dst + e.size < 2 ^ 64
  pub src_ends : e.src + e.size < 2 ^ 64

pub data AllInRange : List SgEntry → Type 0 where
  no_entry : AllInRange []
  and_entry : {e : SgEntry} {es : List SgEntry} → InRange e → AllInRange es → AllInRange (e ∷ es)

abbrev longer : SgEntry → SgEntry → SgEntry
longer prev e = record prev { size = add64 prev.size e.size }

follows-eq :
    (e prev : SgEntry)
    → InRange prev
    → follows e prev ≡ true
    → (e.dst ≡ prev.dst + prev.size) × (e.src ≡ prev.src + prev.size)
unfolding follows
follows-eq e prev r h =
    (ground (arith, h, r.dst_ends, r.src_ends), ground (arith, h, r.dst_ends, r.src_ends))

longer-InRange :
    (e prev : SgEntry) → InRange e → InRange prev → follows e prev ≡ true → InRange (longer prev e)
longer-InRange e prev r s h =
    let f = follows-eq e prev s h in
    record { dst_ends = omega (arith, f.0, r.dst_ends); src_ends = omega (arith, f.1, r.src_ends) }

longer-size :
    (e prev : SgEntry)
    → InRange e
    → InRange prev
    → follows e prev ≡ true
    → add64 prev.size e.size ≡ prev.size + e.size
longer-size e prev r s h = omega (arith, (follows-eq e prev s h).0, r.dst_ends)

copied-longer_at :
    (host device : Memory) (e prev : SgEntry) (p : ℕ)
    → InRange e
    → InRange prev
    → follows e prev ≡ true
    → copied host (longer prev e) device p ≡ copied host e (copied host prev device) p
unfolding copied
copied-longer_at host device e prev p r s h =
    let f = follows-eq e prev s h in
    rw (f.0, f.1, longer-size e prev r s h)
      (elim (dec_lt p (prev.dst + prev.size)) [
        | yes low ↦ ground (arith, low)
        | no high ↦
            let skip : prev.dst + prev.size ≤ p
                → prev.src + (p - prev.dst) ≡ prev.src + prev.size + (p - (prev.dst + prev.size)) =
              λ x. omega arith in
            ground (arith, high, ap host (skip (omega arith)))
      ])

-- One merged copy writes what the two copies write.
copied-longer :
    (host device : Memory) (e prev : SgEntry)
    → InRange e
    → InRange prev
    → follows e prev ≡ true
    → copied host (longer prev e) device ≡ copied host e (copied host prev device)
copied-longer host device e prev r s h = fun_ext (λ p. copied-longer_at host device e prev p r s h)

coalesce_after-copied :
    (host device : Memory) (prev : SgEntry) (es : List SgEntry)
    → InRange prev
    → AllInRange es
    → copied_all host (coalesce_after prev es) device ≡ copied_all host (prev ∷ es) device
unfolding coalesce_after copied_all
coalesce_after-copied host device prev [] s no_entry = refl
coalesce_after-copied host device prev (e ∷ es) s (and_entry r rs) =
    elim (Bool-cases (follows e prev)) [
      | inl merge ↦ rw merge (
          coalesce_after-copied host device (longer prev e) es (longer-InRange e prev r s merge) rs
          ∙ ap (copied_all host es) (copied-longer host device e prev r s merge))
      | inr apart ↦ rw apart (coalesce_after-copied host (copied host prev device) e es r rs)
    ]

-- The greedy merge of a sorted list leaves the memory that copying its entries one by one leaves,
-- where no entry's range wraps around.
pub coalesce-copied :
    (host device : Memory) (es : List SgEntry)
    → AllInRange es
    → copied_all host (coalesce es) device ≡ copied_all host es device
unfolding coalesce
coalesce-copied host device [] no_entry = refl
coalesce-copied host device (e ∷ es) (and_entry r rs) = coalesce_after-copied host device e es r rs

pub AllInRange-In : (es : List SgEntry) (e : SgEntry) → AllInRange es → In e es → InRange e
AllInRange-In [] e no_entry m = absurd m
AllInRange-In (x ∷ xs) e (and_entry r rs) (inl same) = subst InRange (sym same) r
AllInRange-In (x ∷ xs) e (and_entry r rs) (inr m) = AllInRange-In xs e rs m

pub In-AllInRange : (es : List SgEntry) → ((e : SgEntry) → In e es → InRange e) → AllInRange es
In-AllInRange [] h = no_entry
In-AllInRange (e ∷ es) h = and_entry (h e (inl refl)) (In-AllInRange es (λ f m. h f (inr m)))

coalesce_after-AllInRange :
    (prev : SgEntry) (es : List SgEntry)
    → InRange prev
    → AllInRange es
    → AllInRange (coalesce_after prev es)
unfolding coalesce_after
coalesce_after-AllInRange prev [] s no_entry = and_entry s no_entry
coalesce_after-AllInRange prev (e ∷ es) s (and_entry r rs) = elim (Bool-cases (follows e prev)) [
  | inl merge ↦
      rw merge (coalesce_after-AllInRange (longer prev e) es (longer-InRange e prev r s merge) rs)
  | inr apart ↦ rw apart (and_entry s (coalesce_after-AllInRange e es r rs))
]

pub coalesce-AllInRange : (es : List SgEntry) → AllInRange es → AllInRange (coalesce es)
unfolding coalesce
coalesce-AllInRange [] no_entry = no_entry
coalesce-AllInRange (e ∷ es) (and_entry r rs) = coalesce_after-AllInRange e es r rs

-- Two entries that end at the same places are followed by the same entries.
follows-ends :
    (e last prev : SgEntry)
    → add64 prev.dst prev.size ≡ add64 last.dst last.size
    → add64 prev.src prev.size ≡ add64 last.src last.size
    → follows e prev ≡ follows e last
unfolding follows
follows-ends e last prev d s = rw (d, s) refl

follows-add64 :
    (e prev : SgEntry)
    → follows e prev ≡ true
    → (e.dst ≡ add64 prev.dst prev.size) × (e.src ≡ add64 prev.src prev.size)
unfolding follows
follows-add64 e prev h = (ground (arith, h), ground (arith, h))

coalesce_after-contiguous :
    (last prev : SgEntry) (es : List SgEntry)
    → add64 prev.dst prev.size ≡ add64 last.dst last.size
    → add64 prev.src prev.size ≡ add64 last.src last.size
    → contiguous_after last es ≡ true
    → coalesce_after prev es ≡ record prev { size = sum_bytes prev.size es } ∷ []
unfolding coalesce_after contiguous_after sum_bytes
coalesce_after-contiguous last prev [] d s h = refl
coalesce_after-contiguous last prev (e ∷ es) d s h =
    let here : follows e last ≡ true = ground (arith, h) in
    let there : contiguous_after e es ≡ true = ground (arith, h) in
    let merge : follows e prev ≡ true = follows-ends e last prev d s ∙ here in
    let ends : (e.dst ≡ add64 last.dst last.size) × (e.src ≡ add64 last.src last.size) =
      follows-add64 e last here in
    rw merge (
      coalesce_after-contiguous e (longer prev e) es (omega (arith, d, ends.0))
        (omega (arith, s, ends.1)) there)

-- What is submitted for a tile or a list, one copy where its entries are contiguous, leaves the memory
-- that copying each of them leaves, where no entry's range wraps around.
pub group_copies-copied :
    (host device : Memory) (es : List SgEntry)
    → AllInRange es
    → copied_all host (group_copies es) device ≡ copied_all host es device
unfolding group_copies sum_bytes
group_copies-copied host device [] no_entry = refl
group_copies-copied host device (e ∷ es) (and_entry r rs) =
    elim (Bool-cases (ltb 1 (length (e ∷ es)) && contiguous_after e es)) [
      | inl merge ↦
          let whole : contiguous_after e es ≡ true = ground (arith, merge) in
          let size : add64 0 e.size ≡ e.size = omega (arith, r.dst_ends) in
          rw merge (
            ap (λ n. copied_all host (record e { size = sum_bytes n es } ∷ []) device) size
            ∙ ap (λ l. copied_all host l device)
                (sym (coalesce_after-contiguous e e es refl refl whole))
            ∙ coalesce_after-copied host device e es r rs)
      | inr each ↦ rw each refl
    ]

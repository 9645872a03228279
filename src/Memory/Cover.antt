-- ===== src/Memory/Cover.antt =====
-- Which entries of a list write to an address, and what the last of them leaves there.
use gfd.Base.{
  ℕ, ◌+◌, ◌-◌, ◌≡◌, refl, sym, subst, fun_ext, ◌∙◌, Bool, true, false, arith, ltb, leb, ◌&&◌, ◌||◌,
  ◌⊎◌, inl, inr, List, [], ◌∷◌, ◌++◌, Bool-cases,
}
use gfd.Driver.{SgEntry}
use gfd.Memory.{Memory, copied, copied_all}

-- The entry writes to the address `p`.
unfoldable pub covers : SgEntry → ℕ → Bool
covers e p = leb e.dst p && ltb p (e.dst + e.size)

unfoldable pub covered : List SgEntry → ℕ → Bool
covered [] p = false
covered (e ∷ es) p = covers e p || covered es p

-- The entry is one of the list's.
abbrev pub In : SgEntry → List SgEntry → Type 0
In e [] = ⊥
In e (x ∷ xs) = (e ≡ x) ⊎ In e xs

-- The two lists have the same entries, whatever their order and number.
pub record SameEntries (xs ys : List SgEntry) : Type 0 where
  pub there : (e : SgEntry) → In e xs → In e ys
  pub back : (e : SgEntry) → In e ys → In e xs

-- Entries that write to one address are the same entry.
abbrev pub NoClash : List SgEntry → Type 0
NoClash es =
    (e f : SgEntry) (p : ℕ) → In e es → In f es → covers e p ≡ true → covers f p ≡ true → e ≡ f

pub copied_all-append :
    (host device : Memory) (es fs : List SgEntry)
    → copied_all host (es ++ fs) device ≡ copied_all host fs (copied_all host es device)
unfolding copied_all
copied_all-append host device [] fs = refl
copied_all-append host device (e ∷ es) fs = copied_all-append host (copied host e device) es fs

copied-hit :
    (host : Memory) (e : SgEntry) (device : Memory) (p : ℕ)
    → covers e p ≡ true
    → copied host e device p ≡ host (e.src + (p - e.dst))
unfolding copied covers
copied-hit host e device p h = rw h refl

copied-miss :
    (host : Memory) (e : SgEntry) (device : Memory) (p : ℕ)
    → covers e p ≡ false
    → copied host e device p ≡ device p
unfolding copied covers
copied-miss host e device p h = rw h refl

-- What a copy leaves at an address depends on what was there alone.
copied-at :
    (host : Memory) (e : SgEntry) (d d' : Memory) (p : ℕ)
    → d p ≡ d' p
    → copied host e d p ≡ copied host e d' p
copied-at host e d d' p h = elim (Bool-cases (covers e p)) [
  | inl hit ↦ copied-hit host e d p hit ∙ sym (copied-hit host e d' p hit)
  | inr miss ↦ copied-miss host e d p miss ∙ h ∙ sym (copied-miss host e d' p miss)
]

pub copied_all-at :
    (host : Memory) (es : List SgEntry) (d d' : Memory) (p : ℕ)
    → d p ≡ d' p
    → copied_all host es d p ≡ copied_all host es d' p
unfolding copied_all
copied_all-at host [] d d' p h = h
copied_all-at host (e ∷ es) d d' p h =
    copied_all-at host es (copied host e d) (copied host e d') p (copied-at host e d d' p h)

pub copied_all-miss :
    (host : Memory) (es : List SgEntry) (device : Memory) (p : ℕ)
    → covered es p ≡ false
    → copied_all host es device p ≡ device p
unfolding copied_all covered
copied_all-miss host [] device p h = refl
copied_all-miss host (e ∷ es) device p h =
    copied_all-miss host es (copied host e device) p (ground (arith, h))
    ∙ copied-miss host e device p (ground (arith, h))

-- The entry that wrote last to `p`.
pub record Writer (host : Memory) (es : List SgEntry) (device : Memory) (p : ℕ) : Type 0 where
  pub entry : SgEntry
  pub member : In entry es
  pub hits : covers entry p ≡ true
  pub wrote : copied_all host es device p ≡ host (entry.src + (p - entry.dst))

pub copied_all-hit :
    (host : Memory) (es : List SgEntry) (device : Memory) (p : ℕ)
    → covered es p ≡ true
    → Writer host es device p
unfolding copied_all covered
copied_all-hit host [] device p h = cc
copied_all-hit host (e ∷ es) device p h = elim (Bool-cases (covered es p)) [
  | inl later ↦
      let w = copied_all-hit host es (copied host e device) p later in
      record { entry = w.entry; member = inr w.member; hits = w.hits; wrote = w.wrote }
  | inr not_later ↦
      let here : covers e p ≡ true = ground (arith, h, not_later) in
      record {
        entry = e;
        member = inl refl;
        hits = here;
        wrote =
            copied_all-miss host es (copied host e device) p not_later
            ∙ copied-hit host e device p here;
      }
]

pub covered-In :
    (es : List SgEntry) (e : SgEntry) (p : ℕ) → In e es → covers e p ≡ true → covered es p ≡ true
unfolding covered
covered-In [] e p m h = absurd m
covered-In (x ∷ xs) e p (inl same) h =
    let here : covers x p ≡ true = subst (λ y. covers y p ≡ true) same h in ground (arith, here)
covered-In (x ∷ xs) e p (inr m) h = ground (arith, covered-In xs e p m h)

-- Where some entry writes, what was there before is forgotten.
pub copied_all-device :
    (host : Memory) (es : List SgEntry) (d d' : Memory) (p : ℕ)
    → covered es p ≡ true
    → copied_all host es d p ≡ copied_all host es d' p
unfolding copied_all covered
copied_all-device host [] d d' p h = cc
copied_all-device host (e ∷ es) d d' p h = elim (Bool-cases (covers e p)) [
  | inl hit ↦
      copied_all-at host es (copied host e d) (copied host e d') p
        (copied-hit host e d p hit ∙ sym (copied-hit host e d' p hit))
  | inr miss ↦
      copied_all-device host es (copied host e d) (copied host e d') p (ground (arith, h, miss))
]

-- Lists with the same entries write to the same addresses.
pub SameEntries-covered :
    (xs ys : List SgEntry) (p : ℕ) → SameEntries xs ys → covered xs p ≡ covered ys p
SameEntries-covered xs ys p s = elim (Bool-cases (covered xs p)) [
  | inl hit ↦
      let w = copied_all-hit (λ a. 0) xs (λ a. 0) p hit in
      hit ∙ sym (covered-In ys w.entry p (s.there w.entry w.member) w.hits)
  | inr miss ↦ elim (Bool-cases (covered ys p)) [
    | inl hit ↦
        let w = copied_all-hit (λ a. 0) ys (λ a. 0) p hit in
        let found = covered-In xs w.entry p (s.back w.entry w.member) w.hits in cc
    | inr both ↦ miss ∙ sym both
  ]
]

-- Two lists with the same entries leave the same memory, if no two entries clash.
pub SameEntries-copied :
    (host : Memory) (xs ys : List SgEntry) (device : Memory)
    → SameEntries xs ys
    → NoClash ys
    → copied_all host xs device ≡ copied_all host ys device
SameEntries-copied host xs ys device s apart = fun_ext λ p. elim (Bool-cases (covered xs p)) [
  | inl hit ↦
      let w = copied_all-hit host xs device p hit in
      let m = s.there w.entry w.member in
      let v = copied_all-hit host ys device p (covered-In ys w.entry p m w.hits) in
      let same = apart w.entry v.entry p m v.member w.hits v.hits in w.wrote ∙ rw same (sym v.wrote)
  | inr miss ↦
      let both = sym (SameEntries-covered xs ys p s) ∙ miss in
      copied_all-miss host xs device p miss ∙ sym (copied_all-miss host ys device p both)
]

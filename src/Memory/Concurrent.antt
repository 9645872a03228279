-- ===== src/Memory/Concurrent.antt =====
-- What copies leave that run at the same time: at each address the byte of some copy that writes there.
use gfd.Base.{
  ℕ, suc, arith, ◌+◌, ◌-◌, ◌≡◌, refl, sym, ap, fun_ext, ◌∙◌, ◌⊎◌, true, false, inl, inr, List, [],
  ◌∷◌, ◌++◌, Bool-cases,
}
use gfd.Driver.{SgEntry}
use gfd.Memory.{Memory, copied_all}
use gfd.Memory.Cover.{
  covers, covered, In, SameEntries, copied_all-miss, copied_all-hit, covered-In,
  SameEntries-covered,
}

-- The byte that an entry brings to an address which it writes.
abbrev pub byte_of : Memory → SgEntry → ℕ → ℕ
byte_of host e p = host (e.src + (p - e.dst))

pub record Written (host : Memory) (es : List SgEntry) (after : Memory) (p : ℕ) : Type 0 where
  pub entry : SgEntry
  pub member : In entry es
  pub hits : covers entry p ≡ true
  pub byte : after p ≡ byte_of host entry p

-- A memory that the copies may leave, whatever the order of their single bytes.
pub record Outcome (host : Memory) (es : List SgEntry) (before after : Memory) : Type 0 where
  pub untouched : (p : ℕ) → covered es p ≡ false → after p ≡ before p
  pub written : (p : ℕ) → covered es p ≡ true → Written host es after p

-- Entries that write to one address bring the same byte there.
abbrev pub SameBytes : Memory → List SgEntry → Type 0
SameBytes host es =
    (e f : SgEntry) (p : ℕ)
    → In e es
    → In f es
    → covers e p ≡ true
    → covers f p ≡ true
    → byte_of host e p ≡ byte_of host f p

-- Each byte that `xs` brings is one that `ys` brings to the same place.
abbrev pub Carries : Memory → List SgEntry → Memory → List SgEntry → Type 0
Carries host xs host' ys =
    (x : SgEntry) (p : ℕ)
    → In x xs
    → covers x p ≡ true
    → (y : SgEntry) × In y ys × (covers y p ≡ true) × (byte_of host x p ≡ byte_of host' y p)

-- One copy after the other is one of the outcomes.
pub copied_all-Outcome :
    (host : Memory) (es : List SgEntry) (before : Memory)
    → Outcome host es before (copied_all host es before)
copied_all-Outcome host es before = record {
  untouched = λ p miss. copied_all-miss host es before p miss;
  written = λ p hit.
      let w = copied_all-hit host es before p hit in
      record { entry = w.entry; member = w.member; hits = w.hits; byte = w.wrote };
}

-- The outcome is determined if no two entries bring different bytes.
pub SameBytes-Outcome :
    (host : Memory) (es : List SgEntry) (before after : Memory)
    → SameBytes host es
    → Outcome host es before after
    → after ≡ copied_all host es before
SameBytes-Outcome host es before after same o = fun_ext λ p. elim (Bool-cases (covered es p)) [
  | inl hit ↦
      let w = o.written p hit in
      let v = copied_all-hit host es before p hit in
      w.byte ∙ same w.entry v.entry p w.member v.member w.hits v.hits ∙ sym v.wrote
  | inr miss ↦ o.untouched p miss ∙ sym (copied_all-miss host es before p miss)
]

pub SameEntries-Outcome :
    (host : Memory) (xs ys : List SgEntry) (before after : Memory)
    → SameEntries xs ys
    → Outcome host xs before after
    → Outcome host ys before after
SameEntries-Outcome host xs ys before after s o = record {
  untouched = λ p miss. o.untouched p (SameEntries-covered xs ys p s ∙ miss);
  written = λ p hit.
      let w = o.written p (SameEntries-covered xs ys p s ∙ hit) in
      record { entry = w.entry; member = s.there w.entry w.member; hits = w.hits; byte = w.byte };
}

pub Carries-SameBytes :
    (host : Memory) (xs : List SgEntry) (host' : Memory) (ys : List SgEntry)
    → Carries host xs host' ys
    → SameBytes host' ys
    → SameBytes host xs
Carries-SameBytes host xs host' ys c same e f p m n hit hit' =
    let (y, in_y, hit_y, byte_y) = c e p m hit in
    let (z, in_z, hit_z, byte_z) = c f p n hit' in
    byte_y ∙ same y z p in_y in_z hit_y hit_z ∙ sym byte_z

pub Carries-same : (host : Memory) (xs : List SgEntry) → Carries host xs host xs
Carries-same host xs x p m hit = (x, m, hit, refl)

pub In-left : (e : SgEntry) (xs ys : List SgEntry) → In e xs → In e (xs ++ ys)
In-left e [] ys m = absurd m
In-left e (x ∷ xs) ys (inl same) = inl same
In-left e (x ∷ xs) ys (inr m) = inr (In-left e xs ys m)

pub In-right : (e : SgEntry) (xs ys : List SgEntry) → In e ys → In e (xs ++ ys)
In-right e [] ys m = m
In-right e (x ∷ xs) ys m = inr (In-right e xs ys m)

pub In-either : (e : SgEntry) (xs ys : List SgEntry) → In e (xs ++ ys) → In e xs ⊎ In e ys
In-either e [] ys m = inr m
In-either e (x ∷ xs) ys (inl same) = inl (inl same)
In-either e (x ∷ xs) ys (inr m) = elim (In-either e xs ys m) [ inl l ↦ inl (inr l) | inr r ↦ inr r ]

pub Carries-append :
    (host host' : Memory) (xs ys us vs : List SgEntry)
    → Carries host xs host' us
    → Carries host ys host' vs
    → Carries host (xs ++ ys) host' (us ++ vs)
Carries-append host host' xs ys us vs c d x p m hit = elim (In-either x xs ys m) [
  | inl l ↦ let (y, in_y, h, b) = c x p l hit in (y, In-left y us vs in_y, h, b)
  | inr r ↦ let (y, in_y, h, b) = d x p r hit in (y, In-right y us vs in_y, h, b)
]

-- A single copy agrees with itself.
pub single-SameBytes : (host : Memory) (x : SgEntry) → SameBytes host (x ∷ [])
single-SameBytes host x e f p (inl m) (inl n) hit hit' = ap (λ y. byte_of host y p) (m ∙ sym n)
single-SameBytes host x e f p (inr m) n hit hit' = absurd m
single-SameBytes host x e f p (inl m) (inr n) hit hit' = absurd n

single-byte :
    (host : Memory) (x : SgEntry) (device : Memory) (z : SgEntry) (p : ℕ)
    → In z (x ∷ [])
    → covers z p ≡ true
    → copied_all host (x ∷ []) device p ≡ byte_of host z p
single-byte host x device z p m hit =
    let w = copied_all-hit host (x ∷ []) device p (covered-In (x ∷ []) z p m hit) in
    w.wrote ∙ single-SameBytes host x w.entry z p w.member m w.hits hit

-- What one copy leaves wherever it writes does not depend on what was there: if it leaves what the
-- entries leave, then they write there, and the same byte.
pub single-Carries :
    (host : Memory) (x : SgEntry) (host' : Memory) (ys : List SgEntry)
    → ((device : Memory) → copied_all host (x ∷ []) device ≡ copied_all host' ys device)
    → Carries host (x ∷ []) host' ys
single-Carries host x host' ys e z p m hit =
    let byte = byte_of host z p in
    let left : (device : Memory) → byte ≡ copied_all host' ys device p = λ device.
      sym (single-byte host x device z p m hit) ∙ ap (λ (after : Memory). after p) (e device) in
    elim (Bool-cases (covered ys p)) [
      | inl found ↦
          let w = copied_all-hit host' ys (λ a. 0) p found in
          (w.entry, w.member, w.hits, left (λ a. 0) ∙ w.wrote)
      | inr miss ↦
          let device : Memory = λ a. suc byte in
          absurd (omega (arith, left device, copied_all-miss host' ys device p miss))
    ]

-- ===== src/CopyEngine/Sent.antt =====
-- What it means that entries were sent to channels: each copied, once and in order, on channels that a
-- mask names.
use gfd.Base.{
  ℕ, ◌+◌, ◌^◌, ◌<◌, ◌≡◌, refl, ap, sym, subst, ◌∙◌, Bool, true, false, ◌||◌, List, [], ◌∷◌, ◌++◌,
  arith, has, has-bit_or,
}
use Prim.Native.Nat.{bit_or}
use gfd.Driver.{SgEntry, channel, memcpy_htod_async}
use gfd.Driver.Clock.{clock, copies}
use gfd.CopyEngine.{Manager}
use gfd.CopyEngine.Masks.{has-power}

-- The entries of `es`, newest first, in front of older ones.
abbrev pub onto : List SgEntry → List SgEntry → List SgEntry
onto [] old = old
onto (e ∷ es) old = onto es (e ∷ old)

abbrev pub sum_sizes : List SgEntry → ℕ
sum_sizes [] = 0
sum_sizes (e ∷ es) = e.size + sum_sizes es

pub onto-append : (xs ys old : List SgEntry) → onto (xs ++ ys) old ≡ onto ys (onto xs old)
onto-append [] ys old = refl
onto-append (x ∷ xs) ys old = onto-append xs ys (x ∷ old)

pub sum_sizes-append : (xs ys : List SgEntry) → sum_sizes (xs ++ ys) ≡ sum_sizes xs + sum_sizes ys
sum_sizes-append [] ys = omega arith
sum_sizes-append (x ∷ xs) ys = omega (arith, sum_sizes-append xs ys)

-- `es` were copied on channels of `mask`, and nothing else happened but changes of `next_channel`.
pub record Sent (mask : ℕ) (es : List SgEntry) (m m' : Manager) : Type 0 where
  pub dirty : m'.dirty_mask ≡ m.dirty_mask
  pub open_ : m'.initialized ≡ m.initialized
  pub pinned : m'.context_pinned ≡ m.context_pinned
  pub number : m'.num_channels ≡ m.num_channels
  pub submissions : m'.total_submissions ≡ m.total_submissions
  pub entries : m'.total_entries ≡ m.total_entries
  pub bytes : m'.total_bytes ≡ m.total_bytes + sum_sizes es
  pub copied : copies m'.trace ≡ onto es (copies m.trace)
  pub finished : (c : ℕ) → (clock m'.trace).finished c ≡ (clock m.trace).finished c
  pub marks : (c : ℕ) → (clock m'.trace).channel_mark c ≡ (clock m.trace).channel_mark c
  pub others :
      (c : ℕ) → c < 4 → has mask c ≡ false → (clock m'.trace).issued c ≡ (clock m.trace).issued c

pub Sent-none :
    (mask : ℕ) (m m' : Manager)
    → m'.dirty_mask ≡ m.dirty_mask
    → m'.initialized ≡ m.initialized
    → m'.context_pinned ≡ m.context_pinned
    → m'.num_channels ≡ m.num_channels
    → m'.total_submissions ≡ m.total_submissions
    → m'.total_entries ≡ m.total_entries
    → m'.total_bytes ≡ m.total_bytes
    → m'.trace ≡ m.trace
    → Sent mask [] m m'
Sent-none mask m m' a b c d e f g h = record {
  dirty = a;
  open_ = b;
  pinned = c;
  number = d;
  submissions = e;
  entries = f;
  bytes = omega arith;
  copied = ap copies h;
  finished = λ k. ap (λ t. (clock t).finished k) h;
  marks = λ k. ap (λ t. (clock t).channel_mark k) h;
  others = λ k _ _. ap (λ t. (clock t).issued k) h;
}

pub Sent-append :
    (mask mask' : ℕ) (xs ys : List SgEntry) (m m' m'' : Manager)
    → ((c : ℕ) → c < 4 → has mask' c ≡ false → has mask c ≡ false)
    → Sent mask xs m m'
    → Sent mask' ys m' m''
    → Sent mask' (xs ++ ys) m m''
Sent-append mask mask' xs ys m m' m'' sub s t = record {
  dirty = t.dirty ∙ s.dirty;
  open_ = t.open_ ∙ s.open_;
  pinned = t.pinned ∙ s.pinned;
  number = t.number ∙ s.number;
  submissions = t.submissions ∙ s.submissions;
  entries = t.entries ∙ s.entries;
  bytes = omega (arith, t.bytes, s.bytes, sum_sizes-append xs ys);
  copied = t.copied ∙ ap (onto ys) s.copied ∙ sym (onto-append xs ys (copies m.trace));
  finished = λ c. t.finished c ∙ s.finished c;
  marks = λ c. t.marks c ∙ s.marks c;
  others = λ c hc h. t.others c hc h ∙ s.others c hc (sub c hc h);
}

pub Sent-cast :
    {mask : ℕ} {xs ys : List SgEntry} {m m' : Manager}
    → xs ≡ ys
    → Sent mask xs m m'
    → Sent mask ys m m'
Sent-cast {mask} {xs} {ys} {m} {m'} e s = subst (λ es. Sent mask es m m') e s

-- One copy on channel `ch`.
pub Sent-one :
    (ch : ℕ) (e : SgEntry) (m : Manager)
    → ch < 4
    → Sent (2 ^ ch) (e ∷ []) m (record m {
      trace = memcpy_htod_async e (channel ch) ∷ m.trace;
      total_bytes = m.total_bytes + e.size;
    })
Sent-one ch e m h = record {
  dirty = refl;
  open_ = refl;
  pinned = refl;
  number = refl;
  submissions = refl;
  entries = refl;
  bytes = omega arith;
  copied = refl;
  finished = λ c. refl;
  marks = λ c. refl;
  others = λ c hc f. let g = has-power ch c h hc in ground (arith, f, g);
}

-- Setting `next_channel` first makes no difference.
pub Sent-step :
    (ch : ℕ) (e : SgEntry) (m step : Manager)
    → ch < 4
    → Sent (2 ^ ch) (e ∷ []) m (record m {
      next_channel = step.next_channel;
      trace = memcpy_htod_async e (channel ch) ∷ m.trace;
      total_bytes = m.total_bytes + e.size;
    })
Sent-step ch e m step h =
    let s = Sent-one ch e m h in
    record {
      dirty = s.dirty;
      open_ = s.open_;
      pinned = s.pinned;
      number = s.number;
      submissions = s.submissions;
      entries = s.entries;
      bytes = s.bytes;
      copied = s.copied;
      finished = s.finished;
      marks = s.marks;
      others = s.others;
    }

-- Nor does setting it afterwards.
pub Sent-reset :
    {mask : ℕ} {es : List SgEntry} {m m' : Manager} (next : ℕ)
    → Sent mask es m m'
    → Sent mask es m (record m' { next_channel = next })
Sent-reset next s = record {
  dirty = s.dirty;
  open_ = s.open_;
  pinned = s.pinned;
  number = s.number;
  submissions = s.submissions;
  entries = s.entries;
  bytes = s.bytes;
  copied = s.copied;
  finished = s.finished;
  marks = s.marks;
  others = s.others;
}

abbrev pub Larger : ℕ → ℕ → Type 0
Larger mask' mask = (c : ℕ) → c < 4 → has mask' c ≡ false → has mask c ≡ false

pub bit_or-left : (mask bit : ℕ) → mask < 16 → bit < 16 → Larger (bit_or mask bit) mask
bit_or-left mask bit hm hb c hc h = let e = has-bit_or mask bit c hm hb hc in ground (arith, e, h)

pub bit_or-right : (mask bit : ℕ) → mask < 16 → bit < 16 → Larger (bit_or mask bit) bit
bit_or-right mask bit hm hb c hc h =
    let e = has-bit_or mask bit c hm hb hc in right (has mask c) (sym e ∙ h)
  where
    right : {a : Bool} (b : Bool) → (b || a) ≡ false → a ≡ false
    right true e = cc
    right false e = e

-- The state after one copy.
abbrev pub copied_on : ℕ → SgEntry → Manager → Manager
copied_on ch e m = record m {
  trace = memcpy_htod_async e (channel ch) ∷ m.trace;
  total_bytes = m.total_bytes + e.size;
}

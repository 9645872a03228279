-- ===== src/Base/Bits.antt =====
-- Words of four bits, by evaluation: `|=`, and the test of one bit.
use Prim.Native.Nat.{ℕ, zero, suc, ◌^◌, ◌<◌, bit_or}
use mathlib.Core.Path.{◌≡◌, refl, sym}
use mathlib.Core.Bool.{Bool, true, false, ◌&&◌, ◌||◌, not}
use native.Mathlib.Omega.{arith}
use gfd.Base.Tests.{ltb, ltb→lt, has_flag}

unfoldable pub all_below : ℕ → (ℕ → Bool) → Bool
all_below zero test = true
all_below (suc n) test = all_below n test && test n

pub all_below_sound :
    (bound : ℕ) (test : ℕ → Bool) (x : ℕ) → x < bound → all_below bound test ≡ true → test x ≡ true
unfolding all_below
all_below_sound zero test x lt h = absurd (omega arith)
all_below_sound (suc bound) test x lt h = ground (arith, all_below_sound bound test x)

abbrev pub same : Bool → Bool → Bool
same true b = b
same false b = not b

pub same→eq : (a b : Bool) → same a b ≡ true → a ≡ b
same→eq true b h = sym h
same→eq false b h = ground arith

-- Bit `c` of a word.
abbrev pub has : ℕ → ℕ → Bool
has mask c = has_flag mask (2 ^ c)

abbrev or_row : ℕ → ℕ → Bool
or_row a b =
    ltb (bit_or a b) 16 && all_below 4 (λ c. same (has (bit_or a b) c) (has a c || has b c))

or_table : all_below 16 (λ a. all_below 16 (or_row a)) ≡ true
unfolding all_below has_flag
or_table = refl

or_row-true : (a b : ℕ) → a < 16 → b < 16 → or_row a b ≡ true
or_row-true a b ha hb =
    all_below_sound 16 (or_row a) b hb
      (all_below_sound 16 (λ a. all_below 16 (or_row a)) a ha or_table)

and-left : (a b : Bool) → (a && b) ≡ true → a ≡ true
and-left a b h = ground arith

and-right : (a b : Bool) → (a && b) ≡ true → b ≡ true
and-right a b h = ground arith

pub bit_or-lt : (a b : ℕ) → a < 16 → b < 16 → bit_or a b < 16
bit_or-lt a b ha hb = ltb→lt (bit_or a b) 16 (and-left _ _ (or_row-true a b ha hb))

pub has-bit_or : (a b c : ℕ) → a < 16 → b < 16 → c < 4 → has (bit_or a b) c ≡ (has a c || has b c)
has-bit_or a b c ha hb hc = same→eq _ _ (
    all_below_sound 4 (λ c. same (has (bit_or a b) c) (has a c || has b c)) c hc
      (and-right _ _ (or_row-true a b ha hb)))

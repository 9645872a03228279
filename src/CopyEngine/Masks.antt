-- ===== src/CopyEngine/Masks.antt =====
-- Sets of channels as bit masks: what `1u << ch` and the loop over the set bits do.
use gfd.Base.{
  ℕ, ◌+◌, ◌^◌, ◌<◌, ◌≡◌, refl, Bool, true, ◌&&◌, ◌==◌, List, [], ◌∷◌, arith, if◌then◌else◌,
  has_flag, has, all_below, all_below_sound, same, same→eq, ltb, ltb→lt,
}
use gfd.CopyEngine.{channels_of, set_bits}

abbrev pub count_of : ℕ → List ℕ → ℕ
count_of c [] = 0
count_of c (x ∷ xs) = (if x == c then 1 else 0) + count_of c xs

abbrev visit_row : ℕ → Bool
visit_row mask = all_below 4 (λ c. count_of c (channels_of mask) == (if has mask c then 1 else 0))

visit_table : all_below 16 visit_row ≡ true
unfolding all_below set_bits has_flag
visit_table = refl

-- The loop over the set bits visits the channels of a mask, each once, and no other.
pub channels_of_once :
    (mask c : ℕ) → mask < 16 → c < 4 → count_of c (channels_of mask) ≡ (if has mask c then 1 else 0)
channels_of_once mask c hm hc =
    let row = all_below_sound 16 visit_row mask hm visit_table in
    let cell =
      all_below_sound 4 (λ c. count_of c (channels_of mask) == (if has mask c then 1 else 0)) c hc
        row in
    ground (arith, cell)

power_table :
    all_below 4 (λ ch. ltb (2 ^ ch) 16 && all_below 4 (λ c. same (has (2 ^ ch) c) (ch == c))) ≡ true
unfolding all_below has_flag
power_table = refl

-- `1u << ch` is the set of `ch` alone.
pub has-power : (ch c : ℕ) → ch < 4 → c < 4 → has (2 ^ ch) c ≡ (ch == c)
has-power ch c hch hc =
    let row =
      all_below_sound 4
        (λ ch. ltb (2 ^ ch) 16 && all_below 4 (λ c. same (has (2 ^ ch) c) (ch == c))) ch hch
        power_table in
    let part : all_below 4 (λ c. same (has (2 ^ ch) c) (ch == c)) ≡ true = ground (arith, row) in
    same→eq _ _ (all_below_sound 4 (λ c. same (has (2 ^ ch) c) (ch == c)) c hc part)

pub power-lt : (ch : ℕ) → ch < 4 → 2 ^ ch < 16
power-lt ch hch =
    let row =
      all_below_sound 4
        (λ ch. ltb (2 ^ ch) 16 && all_below 4 (λ c. same (has (2 ^ ch) c) (ch == c))) ch hch
        power_table in
    ltb→lt (2 ^ ch) 16 (ground (arith, row))

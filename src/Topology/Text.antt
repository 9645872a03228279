-- ===== src/Topology/Text.antt =====
-- What the C library does to the text that include/gfd/pcie_topology.h reads. A character is its code.
use gfd.Base.{
  ltb, ◌%◌, ◌^◌, ℕ, ◌+◌, ◌-◌, ◌*◌, Bool, ◌&&◌, ◌||◌, leb, ◌==◌, if◌then◌else◌, Option, none, some,
  List, [], ◌∷◌, take,
}

pub data ℤ : Type 0 where
  pos : ℕ → ℤ
  negsuc : ℕ → ℤ

abbrev is_digit : ℕ → Bool
is_digit c = leb 48 c && leb c 57

abbrev is_space : ℕ → Bool
is_space c = (c == 32) || (leb 9 c && leb c 13)

abbrev skip_spaces : List ℕ → List ℕ
skip_spaces [] = []
skip_spaces (c ∷ cs) = if is_space c then skip_spaces cs else c ∷ cs

-- The value of the digits in front, after those read already, and the rest.
abbrev digits : ℕ → List ℕ → ℕ × List ℕ
digits value [] = (value, [])
digits value (c ∷ cs) = if is_digit c then digits (value * 10 + (c - 48)) cs else (value, c ∷ cs)

-- An int as its 32 bits, of which a conversion keeps the low ones.
abbrev low_bits : ℕ → ℕ
low_bits n = n % 2 ^ 32

abbrev negated : ℕ → ℕ
negated n = (2 ^ 32 - low_bits n) % 2 ^ 32

abbrev int_of_bits : ℕ → ℤ
int_of_bits n = if ltb n (2 ^ 31) then pos n else negsuc (2 ^ 32 - 1 - n)

abbrev unsigned : (ℕ → ℕ) → List ℕ → Option (ℕ × List ℕ)
unsigned bits [] = none
unsigned bits (c ∷ cs) =
    if is_digit c then (let r = digits 0 (c ∷ cs) in some (bits (r.0), r.1)) else none

-- The digits in front with their sign, and the rest; the bits of the number.
abbrev signed : List ℕ → Option (ℕ × List ℕ)
signed [] = none
signed (c ∷ cs) =
    if c == 45
    then unsigned negated cs
    else if c == 43
    then unsigned low_bits cs
    else unsigned low_bits (c ∷ cs)

-- The number at the front of the text, 0 if there is none.
unfoldable pub atoi : List ℕ → ℤ
atoi text = elim (signed (skip_spaces text)) [ none ↦ pos 0 | some (n, rest) ↦ int_of_bits n ]

-- "%d" of sscanf
unfoldable pub scan_int : List ℕ → Option (ℕ × List ℕ)
scan_int text = signed (skip_spaces text)

-- A character of the format of sscanf.
unfoldable pub skip_char : ℕ → List ℕ → Option (List ℕ)
skip_char c [] = none
skip_char c (d ∷ ds) = if d == c then some ds else none

-- The text behind the first '-', which strchr finds.
unfoldable pub after_dash : List ℕ → Option (List ℕ)
after_dash [] = none
after_dash (c ∷ cs) = if c == 45 then some cs else after_dash cs

abbrev line : List ℕ → List ℕ
line [] = []
line (c ∷ cs) = c ∷ (if c == 10 then [] else line cs)

-- fgets into a buffer of `size` bytes
unfoldable pub fgets : ℕ → List ℕ → Option (List ℕ)
fgets size [] = none
fgets size (c ∷ cs) = some (take (size - 1) (line (c ∷ cs)))

-- The letters 'A' to 'F' made small.
unfoldable pub lower : ℕ → ℕ
lower c = if leb 65 c && leb c 70 then c - 65 + 97 else c

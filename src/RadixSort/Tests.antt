-- ===== src/RadixSort/Tests.antt =====
-- Seventy entries in descending order of their sources.
use gfd.Base.{ℕ, zero, suc, ◌*◌, ◌^◌, ◌≡◌, List, [], ◌∷◌, arith}
use gfd.Driver.{SgEntry}
use gfd.RadixSort.{radix_sort_sg}
use gfd.RadixSort.Sorted.{Sorted}
use gfd.RadixSort.Order.{low, with_low, radix_sort_sg_lem}

abbrev entry : ℕ → SgEntry
entry n = record { dst = n; src = 4096 * n; size = 4096 }

abbrev descending : ℕ → List SgEntry
descending zero = []
descending (suc n) = entry n ∷ descending n

abbrev key : SgEntry → ℕ
key e = e.src

radix_sort_sg_lem_example :
    let out = radix_sort_sg key (λ k es. es) (λ i. entry 0) (descending 70) in
    Sorted (low key (2 ^ 32)) out × ((v : ℕ) → with_low key v out ≡ with_low key v (descending 70))
radix_sort_sg_lem_example =
    radix_sort_sg_lem key (λ i. entry 0) (λ k es. es) (descending 70) (omega arith)

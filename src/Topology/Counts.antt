-- ===== src/Topology/Counts.antt =====
-- The GPUs of each node, counted.
use mathlib.Core.Option.{some-injective}
use gfd.Base.{
  ℕ, zero, suc, ◌+◌, ◌≤◌, ◌<◌, ◌≡◌, refl, sym, ◌∙◌, none, some, List, [], ◌∷◌, arith, get_elem?,
  set, length, get_elem?-set_self, get_elem?-set_ne, ◌==◌, if◌then◌else◌, inl, inr, Option-cases,
  ℕ_discrete, ap, subst,
}
use gfd.Topology.{GpuTopology, count_gpus, intra_numa_idx, gpus_from}

pub get_elem?-gpus_from :
    (gpu : ℕ → GpuTopology) (n g i : ℕ)
    → i < n
    → get_elem? (gpus_from gpu n g) i ≡ some (gpu (g + i))
unfolding gpus_from
get_elem?-gpus_from gpu zero g i h = absurd (omega arith)
get_elem?-gpus_from gpu (suc n) g zero h = ap (λ k. some (gpu k)) (omega arith)
get_elem?-gpus_from gpu (suc n) g (suc i) h =
    get_elem?-gpus_from gpu n (g + 1) i (omega arith) ∙ ap (λ k. some (gpu k)) (omega arith)

pub length-gpus_from : (gpu : ℕ → GpuTopology) (n g : ℕ) → length (gpus_from gpu n g) ≡ n
unfolding gpus_from
length-gpus_from gpu zero g = refl
length-gpus_from gpu (suc n) g = ap suc (length-gpus_from gpu n (g + 1))

pub get_elem?-lt : (xs : List ℕ) (i v : ℕ) → get_elem? xs i ≡ some v → i < length xs
get_elem?-lt [] i v e = absurd (ground (arith, e))
get_elem?-lt (x ∷ xs) zero v e = omega arith
get_elem?-lt (x ∷ xs) (suc i) v e = omega (arith, get_elem?-lt xs i v e)

pub lt-get_elem? : (xs : List ℕ) (i : ℕ) → i < length xs → (v : ℕ) × (get_elem? xs i ≡ some v)
lt-get_elem? [] i h = absurd (omega arith)
lt-get_elem? (x ∷ xs) zero h = (x, refl)
lt-get_elem? (x ∷ xs) (suc i) h = lt-get_elem? xs i (omega arith)

-- One step of the count.
pub count_step :
    (g : GpuTopology) (gpus : List GpuTopology) (counts r : List ℕ)
    → count_gpus (g ∷ gpus) counts ≡ some r
    → (k : ℕ) × (get_elem? counts g.numa_node ≡ some k)
      × (count_gpus gpus (set counts g.numa_node (k + 1)) ≡ some r)
unfolding count_gpus
count_step g gpus counts r e = elim (Option-cases (get_elem? counts g.numa_node)) [
  | inl missing ↦ absurd (
      ground (
        arith,
        subst
            (λ o.
              elim o [ none ↦ none | some n ↦ count_gpus gpus (set counts g.numa_node (n + 1)) ]
              ≡ some r)
            missing e,
      ))
  | inr (k, found) ↦ (
    k,
    found,
    subst
        (λ o.
          elim o [ none ↦ none | some n ↦ count_gpus gpus (set counts g.numa_node (n + 1)) ]
          ≡ some r)
        found e,
  )
]

-- What a node's entry is after an entry was set.
entry_after :
    (counts : List ℕ) (n v k m : ℕ)
    → get_elem? counts n ≡ some k
    → get_elem? counts v ≡ some m
    → (m' : ℕ) × (get_elem? (set counts n (k + 1)) v ≡ some m') × (m ≤ m')
entry_after counts n v k m at_n at_v = elim (ℕ_discrete n v) [
  | yes same ↦ (
    k + 1,
    subst (λ w. get_elem? (set counts n (k + 1)) w ≡ some (k + 1)) same
        (get_elem?-set_self counts n (k + 1) (get_elem?-lt counts n k at_n)),
    omega
        (arith, some-injective _ _ (sym at_v ∙ subst (λ w. get_elem? counts w ≡ some k) same at_n)),
  )
  | no other ↦ (m, get_elem?-set_ne counts (k + 1) other ∙ at_v, omega arith)
]

count_grows :
    (gpus : List GpuTopology) (counts r : List ℕ) (v m : ℕ)
    → count_gpus gpus counts ≡ some r
    → get_elem? counts v ≡ some m
    → (k : ℕ) × (get_elem? r v ≡ some k) × (m ≤ k)
unfolding count_gpus
count_grows [] counts r v m e at =
    (m, subst (λ x. get_elem? x v ≡ some m) (some-injective _ _ e) at, omega arith)
count_grows (g ∷ gpus) counts r v m e at =
    let (n, at_n, rest) = count_step g gpus counts r e in
    let (m', at', le) = entry_after counts g.numa_node v n m at_n at in
    let (k, found, le') = count_grows gpus (set counts g.numa_node (n + 1)) r v m' rest at' in
    (k, found, omega (arith, le, le'))

-- The count of a GPU's node is more than the GPUs of the node before it.
pub count_above :
    (gpus : List GpuTopology) (counts r : List ℕ) (i : ℕ) (g : GpuTopology)
    → count_gpus gpus counts ≡ some r
    → get_elem? gpus i ≡ some g
    → (m : ℕ) × (k : ℕ) × (get_elem? counts g.numa_node ≡ some m)
      × (get_elem? r g.numa_node ≡ some k)
      × (m + intra_numa_idx gpus g.numa_node i + 1 ≤ k)
unfolding intra_numa_idx
count_above [] counts r i g e at = absurd (ground (arith, at))
count_above (h ∷ gpus) counts r zero g e at =
    let (m, at_h, rest) = count_step h gpus counts r e in
    let set_h =
      get_elem?-set_self counts h.numa_node (m + 1) (get_elem?-lt counts h.numa_node m at_h) in
    let (k, found, le) =
      count_grows gpus (set counts h.numa_node (m + 1)) r h.numa_node (m + 1) rest set_h in
    subst
      (λ x.
        (m : ℕ) × (k : ℕ) × (get_elem? counts x.numa_node ≡ some m)
        × (get_elem? r x.numa_node ≡ some k)
        × (m + 0 + 1 ≤ k))
      (some-injective _ _ at) (m, k, at_h, found, omega (arith, le))
count_above (h ∷ gpus) counts r (suc i) g e at =
    let (m, at_h, rest) = count_step h gpus counts r e in
    let (m', k, at_g, found, le) =
      count_above gpus (set counts h.numa_node (m + 1)) r i g rest at in
    elim (ℕ_discrete h.numa_node g.numa_node) [
      | yes same ↦
          let set_h =
            get_elem?-set_self counts h.numa_node (m + 1)
              (get_elem?-lt counts h.numa_node m at_h) in
          let e' : m' ≡ m + 1 = some-injective _ _ (
            sym at_g
            ∙ subst (λ w. get_elem? (set counts h.numa_node (m + 1)) w ≡ some (m + 1)) same
                set_h) in
          (
            m,
            k,
            subst (λ w. get_elem? counts w ≡ some m) same at_h,
            found,
            ground (arith, le, e', same),
          )
      | no other ↦ (
        m',
        k,
        sym (get_elem?-set_ne counts (m + 1) other) ∙ at_g,
        found,
        ground (arith, le, other),
      )
    ]

-- A GPU is not counted among those before it.
pub intra_numa_idx-lt :
    (gpus : List GpuTopology) (i j : ℕ) (g : GpuTopology)
    → get_elem? gpus i ≡ some g
    → i < j
    → intra_numa_idx gpus g.numa_node i + 1 ≤ intra_numa_idx gpus g.numa_node j
unfolding intra_numa_idx
intra_numa_idx-lt [] i j g at lt = absurd (ground (arith, at))
intra_numa_idx-lt (h ∷ gpus) i zero g at lt = absurd (omega arith)
intra_numa_idx-lt (h ∷ gpus) zero (suc j) g at lt =
    subst
      (λ x. 1 ≤ (if h.numa_node == x.numa_node then 1 else 0) + intra_numa_idx gpus x.numa_node j)
      (some-injective _ _ at) (ground arith)
intra_numa_idx-lt (h ∷ gpus) (suc i) (suc j) g at lt =
    omega (arith, intra_numa_idx-lt gpus i j g at (omega arith))

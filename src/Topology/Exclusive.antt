-- ===== src/Topology/Exclusive.antt =====
-- No two GPUs are given the same processor core.
use mathlib.Core.Option.{some-injective}
use native.Mathlib.Nat.{mul-le-mul_right, div-mul-le_self, add-mul, mul_comm}
use gfd.Queue.{add32, mul32}
use gfd.Base.{
  ◌^◌, ◌%◌, if-eq_left, if-eq_right, lt→ltb, ℕ, zero, suc, ◌+◌, ◌*◌, ◌/◌, ◌≤◌, ◌<◌, ◌≡◌, sym, ◌∙◌,
  some, arith, get_elem?, replicate, ◌⊎◌, inl, inr, Bool-cases, ap, ap₂, subst, dec_lt, ℕ_discrete,
  ltb→lt,
}
use gfd.Topology.{
  sub32, int_lt, int_div, GpuTopology, TopologyConfig, Cores, get_exclusive_cores, intra_numa_idx,
  clamped, count_gpus,
}
use gfd.Topology.Counts.{count_above, intra_numa_idx-lt}

-- The processors of a node stand in a row, and the GPUs of each node are counted.
pub record IsCounted (topo : TopologyConfig) : Type 0 where
  pub starts :
      (i : ℕ) (g : GpuTopology)
      → get_elem? topo.gpus i ≡ some g
      → g.cpu_start ≡ g.numa_node * topo.physical_cores_per_numa
  pub ends :
      (i : ℕ) (g : GpuTopology)
      → get_elem? topo.gpus i ≡ some g
      → g.cpu_start + topo.physical_cores_per_numa ≤ g.cpu_end + 1
  pub small : (i : ℕ) (g : GpuTopology) → get_elem? topo.gpus i ≡ some g → g.cpu_end < 2 ^ 31
  pub few : topo.physical_cores_per_numa < 2 ^ 31
  pub counts : count_gpus topo.gpus (replicate topo.total_numa_nodes 0) ≡ some topo.gpus_per_numa

unclamped :
    (cpu_end base n : ℕ)
    → base + n ≤ cpu_end + 1
    → cpu_end < 2 ^ 31
    → clamped cpu_end base n ≡ record { base_cpu = base; num_cores = n; stride = 1 }
unfolding clamped
unclamped cpu_end base n h small = elim (Bool-cases (int_lt cpu_end (sub32 (add32 base n) 1))) [
  | inl over ↦ absurd (
      omega (
        arith,
        h,
        small,
        ltb→lt ((cpu_end + 2 ^ 31) % 2 ^ 32) ((sub32 (add32 base n) 1 + 2 ^ 31) % 2 ^ 32) over,
      ))
  | inr fits ↦
      ap (λ k. record { base_cpu = base; num_cores = k; stride = 1 }) (if-eq_right _ _ fits)
]

-- The cores are within the processors that the node has by its number.
abbrev pub Within : TopologyConfig → GpuTopology → Cores → Type 0
Within topo g c =
    (g.numa_node * topo.physical_cores_per_numa ≤ c.base_cpu)
    × (c.base_cpu + c.num_cores
        ≤ g.numa_node * topo.physical_cores_per_numa + topo.physical_cores_per_numa)

-- The cores are from the GPU's `cpu_start` to its `cpu_end`.
abbrev pub Between : GpuTopology → Cores → Type 0
Between g c = (g.cpu_start ≤ c.base_cpu) × (c.base_cpu + c.num_cores ≤ g.cpu_end + 1)

-- No core is in both.
abbrev pub Apart : Cores → Cores → Type 0
Apart c d = (c.base_cpu + c.num_cores ≤ d.base_cpu) ⊎ (d.base_cpu + d.num_cores ≤ c.base_cpu)

-- `idx` whole shares and one more are within `k` shares.
share_fits : (p k idx : ℕ) → idx + 1 ≤ k → idx * (p / k) + p / k ≤ p
share_fits p k idx h =
    let all : (idx + 1) * (p / k) ≤ k * (p / k) = mul-le-mul_right (p / k) h in
    omega (
      arith,
      all,
      div-mul-le_self p k,
      add-mul idx 1 (p / k),
      mul_comm k (p / k),
      mul_comm 1 (p / k),
    )

-- The share of the GPU with the index `i`.
abbrev pub share : TopologyConfig → ℕ → GpuTopology → ℕ → Cores
share topo i g k = record {
  base_cpu =
      g.cpu_start + intra_numa_idx topo.gpus g.numa_node i * (topo.physical_cores_per_numa / k);
  num_cores = topo.physical_cores_per_numa / k;
  stride = 1;
}

cores_with_count :
    (topo : TopologyConfig) (i : ℕ) (g : GpuTopology) (k : ℕ)
    → IsCounted topo
    → get_elem? topo.gpus i ≡ some g
    → get_elem? topo.gpus_per_numa g.numa_node ≡ some k
    → intra_numa_idx topo.gpus g.numa_node i + 1 ≤ k
    → get_exclusive_cores topo i ≡ some (share topo i g k)
unfolding get_exclusive_cores
cores_with_count topo i g zero w at found le = absurd (omega (arith, le))
cores_with_count topo i g (suc k) w at found le =
    let p = topo.physical_cores_per_numa in
    let idx = intra_numa_idx topo.gpus g.numa_node i in
    let fits = share_fits p (suc k) idx le in
    let ends = w.ends i g at in
    let small = w.small i g at in
    let cores : int_div p (suc k) ≡ p / suc k = if-eq_left _ _ (lt→ltb p (2 ^ 31) w.few) in
    let base : add32 g.cpu_start (mul32 idx (p / suc k)) ≡ g.cpu_start + idx * (p / suc k) =
      omega (arith, fits, ends, small) in
    rw (get_exclusive_cores, at, found)
      (ap (λ c. some (clamped g.cpu_end (add32 g.cpu_start (mul32 idx c)) c)) cores
        ∙ ap (λ a. some (clamped g.cpu_end a (p / suc k))) base
        ∙ ap some (
            unclamped g.cpu_end (g.cpu_start + idx * (p / suc k)) (p / suc k)
              (omega (arith, fits, ends)) small))

pub get_exclusive_cores-share :
    (topo : TopologyConfig) (i : ℕ) (g : GpuTopology)
    → IsCounted topo
    → get_elem? topo.gpus i ≡ some g
    → (k : ℕ) × (get_elem? topo.gpus_per_numa g.numa_node ≡ some k)
      × (intra_numa_idx topo.gpus g.numa_node i + 1 ≤ k)
      × (get_exclusive_cores topo i ≡ some (share topo i g k))
get_exclusive_cores-share topo i g w at =
    let (m, k, before, found, le) =
      count_above topo.gpus (replicate topo.total_numa_nodes 0) topo.gpus_per_numa i g w.counts
        at in
    let above : intra_numa_idx topo.gpus g.numa_node i + 1 ≤ k = omega (arith, le) in
    (k, found, above, cores_with_count topo i g k w at found above)

-- The cores of a share are within the node.
share-Within :
    (topo : TopologyConfig) (i : ℕ) (g : GpuTopology) (k : ℕ)
    → IsCounted topo
    → get_elem? topo.gpus i ≡ some g
    → intra_numa_idx topo.gpus g.numa_node i + 1 ≤ k
    → Within topo g (share topo i g k)
share-Within topo i g k w at le =
    let fits =
      share_fits topo.physical_cores_per_numa k (intra_numa_idx topo.gpus g.numa_node i) le in
    (omega (arith, w.starts i g at), omega (arith, w.starts i g at, fits))

share-Between :
    (topo : TopologyConfig) (i : ℕ) (g : GpuTopology) (k : ℕ)
    → IsCounted topo
    → get_elem? topo.gpus i ≡ some g
    → intra_numa_idx topo.gpus g.numa_node i + 1 ≤ k
    → Between g (share topo i g k)
share-Between topo i g k w at le =
    let fits =
      share_fits topo.physical_cores_per_numa k (intra_numa_idx topo.gpus g.numa_node i) le in
    (omega arith, omega (arith, w.ends i g at, fits))

-- Processors of nodes one after the other.
nodes_apart : (u v p : ℕ) → u < v → u * p + p ≤ v * p
nodes_apart u v p lt =
    let all : (u + 1) * p ≤ v * p = mul-le-mul_right p (omega (arith, lt)) in
    omega (arith, all, add-mul u 1 p, mul_comm 1 p)

shares-Apart :
    (topo : TopologyConfig) (i j : ℕ) (g h : GpuTopology) (k l : ℕ)
    → IsCounted topo
    → get_elem? topo.gpus i ≡ some g
    → get_elem? topo.gpus j ≡ some h
    → get_elem? topo.gpus_per_numa g.numa_node ≡ some k
    → get_elem? topo.gpus_per_numa h.numa_node ≡ some l
    → intra_numa_idx topo.gpus g.numa_node i + 1 ≤ k
    → intra_numa_idx topo.gpus h.numa_node j + 1 ≤ l
    → i < j
    → Apart (share topo i g k) (share topo j h l)
shares-Apart topo i j g h k l w at_i at_j found_k found_l le_k le_l lt =
    let in_g = share-Within topo i g k w at_i le_k in
    let in_h = share-Within topo j h l w at_j le_l in
    let p = topo.physical_cores_per_numa in
    elim (ℕ_discrete g.numa_node h.numa_node) [
      | no other ↦ elim (dec_lt g.numa_node h.numa_node) [
        | yes less ↦ inl (omega (arith, in_g.1, in_h.0, nodes_apart g.numa_node h.numa_node p less))
        | no ge ↦ inr (
            omega (
              arith,
              in_h.1,
              in_g.0,
              nodes_apart h.numa_node g.numa_node p (omega (arith, ge, other)),
            ))
      ]
      | yes same ↦
          let e : k ≡ l =
            some-injective _ _ (sym found_k ∙ ap (get_elem? topo.gpus_per_numa) same ∙ found_l) in
          let step = intra_numa_idx-lt topo.gpus i j g at_i lt in
          let starts : g.cpu_start ≡ h.cpu_start =
            w.starts i g at_i ∙ ap (λ v. v * p) same ∙ sym (w.starts j h at_j) in
          let idx = intra_numa_idx topo.gpus g.numa_node i in
          let more : (idx + 1) * (p / k) ≤ intra_numa_idx topo.gpus h.numa_node j * (p / l) =
            subst (λ x. (idx + 1) * (p / k) ≤ x)
              (ap₂ (λ v c. intra_numa_idx topo.gpus v j * (p / c)) same e)
              (mul-le-mul_right (p / k) step) in
          inl (omega (arith, more, starts, add-mul idx 1 (p / k), mul_comm 1 (p / k)))
    ]

-- The cores that two GPUs are given: those of each from its `cpu_start` to its `cpu_end`, and none in
-- common.
abbrev pub ExclusiveCores : TopologyConfig → ℕ → ℕ → Type 0
ExclusiveCores topo i j =
    (g : GpuTopology) × (h : GpuTopology) × (c : Cores) × (d : Cores) × (get_elem? topo.gpus i
      ≡ some g)
    × (get_elem? topo.gpus j ≡ some h)
    × (get_exclusive_cores topo i ≡ some c)
    × (get_exclusive_cores topo j ≡ some d)
    × Between g c
    × Between h d
    × Apart c d

pub IsCounted-ExclusiveCores :
    (topo : TopologyConfig) (i j : ℕ) (g h : GpuTopology)
    → IsCounted topo
    → get_elem? topo.gpus i ≡ some g
    → get_elem? topo.gpus j ≡ some h
    → i < j
    → ExclusiveCores topo i j
IsCounted-ExclusiveCores topo i j g h w at_i at_j lt =
    let (k, found_k, le_k, is_k) = get_exclusive_cores-share topo i g w at_i in
    let (l, found_l, le_l, is_l) = get_exclusive_cores-share topo j h w at_j in
    (
      g,
      h,
      share topo i g k,
      share topo j h l,
      at_i,
      at_j,
      is_k,
      is_l,
      share-Between topo i g k w at_i le_k,
      share-Between topo j h l w at_j le_l,
      shares-Apart topo i j g h k l w at_i at_j found_k found_l le_k le_l lt,
    )

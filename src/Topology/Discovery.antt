-- ===== src/Topology/Discovery.antt =====
-- discover_topology: when it counts within its array, and what the cores are that it leads to.
use mathlib.Core.Option.{some-injective}
use native.Mathlib.Nat.{add-mul, mul_comm, mul-le-mul_right, le-mul_of_pos_right}
use gfd.Queue.{add32, mul32}
use gfd.Base.{
  ◌^◌, ℕ, zero, suc, ◌+◌, ◌*◌, ◌/◌, ◌≤◌, ◌<◌, ◌≡◌, refl, ◌∙◌, none, some, arith, get_elem?,
  replicate, List, [], ◌∷◌, inl, inr, Bool, true, false, ap, subst, Option-cases, length,
  length-set, set, length-replicate,
}
use gfd.Topology.Text.{negsuc}
use gfd.Topology.{
  sub32, GpuTopology, TopologyConfig, System, count_gpus, discover_topology, discovered,
  with_counts, gpus_from, discover_gpu, assumed_gpu, cpus_per_range, gpu_numa, guessed_numa,
  queried_numa, total_numa_nodes,
}
use gfd.Topology.Counts.{count_above, get_elem?-lt, get_elem?-gpus_from, lt-get_elem?}
use gfd.Topology.Exclusive.{ExclusiveCores, IsCounted-ExclusiveCores}

is_gpu :
    (gpu : ℕ → GpuTopology) (n s i : ℕ) (g : GpuTopology)
    → get_elem? (gpus_from gpu n s) i ≡ some g
    → gpu (s + i) ≡ g
unfolding gpus_from
is_gpu gpu zero s i g e = absurd (ground (arith, e))
is_gpu gpu (suc n) s zero g e = ap gpu (omega arith) ∙ some-injective _ _ e
is_gpu gpu (suc n) s (suc i) g e = ap gpu (omega arith) ∙ is_gpu gpu n (s + 1) i g e

-- The first and the last processor of a node, where the processors of all nodes have int numbers.
node_ends :
    (numa total p : ℕ)
    → numa < total
    → 0 < p
    → total * p < 2 ^ 31
    → (mul32 numa p ≡ numa * p)
      × (sub32 (mul32 (add32 numa 1) p) 1 + 1 ≡ numa * p + p)
      × (numa * p + p ≤ total * p)
node_ends numa total p lt pos small =
    let all : (numa + 1) * p ≤ total * p = mul-le-mul_right p (omega (arith, lt)) in
    let parts = add-mul numa 1 p in
    let one = mul_comm 1 p in
    let few : total ≤ total * p = le-mul_of_pos_right total pos in
    let next : add32 numa 1 ≡ numa + 1 = omega (arith, few) in
    let size : (numa + 1) * p ≡ numa * p + p = omega (arith, parts, one) in
    (
      omega (arith, all, size),
      omega (arith, all, size, ap (λ n. mul32 n p) next),
      omega (arith, all, size),
    )

-- Each node has a processor, and the processors of all nodes have int numbers.
abbrev pub IntNumbered : TopologyConfig → Type 0
IntNumbered topo =
    (0 < topo.physical_cores_per_numa)
    × (topo.total_numa_nodes * topo.physical_cores_per_numa < 2 ^ 31)

discovered-gpus :
    (linux : Bool) (sys : System) (n i : ℕ) (g : GpuTopology)
    → IntNumbered (discovered linux sys n)
    → get_elem? (discovered linux sys n).gpus i ≡ some g
    → g.numa_node < (discovered linux sys n).total_numa_nodes
    → let p = (discovered linux sys n).physical_cores_per_numa in
      (g.cpu_start ≡ g.numa_node * p) × (g.cpu_start + p ≤ g.cpu_end + 1) × (g.cpu_end < 2 ^ 31)
unfolding discovered discover_gpu assumed_gpu
discovered-gpus true sys n i g (pos, small) e lt =
    subst
      (λ x.
        x.numa_node < total_numa_nodes sys
        → (x.cpu_start ≡ x.numa_node * cpus_per_range sys)
          × (x.cpu_start + cpus_per_range sys ≤ x.cpu_end + 1)
          × (x.cpu_end < 2 ^ 31))
      (is_gpu (discover_gpu sys n) n 0 i g e)
      (λ lt.
        let (starts, ends, most) =
          node_ends (gpu_numa sys n (0 + i)) (total_numa_nodes sys) (cpus_per_range sys) lt pos
            small in
        (starts, omega (arith, starts, ends), omega (arith, ends, most, small)))
      lt
discovered-gpus false sys n i g h e lt =
    subst
      (λ x.
        (x.cpu_start ≡ x.numa_node * 8) × (x.cpu_start + 8 ≤ x.cpu_end + 1) × (x.cpu_end < 2 ^ 31))
      (is_gpu assumed_gpu n 0 i g e) (refl, omega arith, omega arith)

discovered-at :
    (linux : Bool) (sys : System) (n i : ℕ)
    → i < n
    → (g : GpuTopology) × (get_elem? (discovered linux sys n).gpus i ≡ some g)
unfolding discovered
discovered-at true sys n i lt = (_, get_elem?-gpus_from (discover_gpu sys n) n 0 i lt)
discovered-at false sys n i lt = (_, get_elem?-gpus_from assumed_gpu n 0 i lt)

some_node : {a b : ℕ} → a < b → 1 ≤ b
some_node h = omega arith

abbrev pub NodesKnown : TopologyConfig → Type 0
NodesKnown topo =
    (i : ℕ) (g : GpuTopology) → get_elem? topo.gpus i ≡ some g → g.numa_node < topo.total_numa_nodes

counted_all :
    (gpus : List GpuTopology) (counts : List ℕ)
    → ((i : ℕ) (g : GpuTopology) → get_elem? gpus i ≡ some g → g.numa_node < length counts)
    → (r : List ℕ) × (count_gpus gpus counts ≡ some r)
unfolding count_gpus
counted_all [] counts known = (counts, refl)
counted_all (g ∷ gpus) counts known =
    let (k, found) = lt-get_elem? counts g.numa_node (known 0 g refl) in
    let (r, e) =
      counted_all gpus (set counts g.numa_node (k + 1))
        (λ i h at. omega (arith, known (suc i) h at, length-set counts g.numa_node (k + 1))) in
    (r, rw (count_gpus, found) e)

-- If the node of each GPU is one of those counted, each node has a processor, and the processors of all
-- nodes have int numbers, then the discovery succeeds, and two different GPUs are given cores from their
-- `cpu_start` to their `cpu_end`, and no core in common.
pub discovered-ExclusiveCores :
    (linux : Bool) (sys : System) (n i j : ℕ)
    → NodesKnown (discovered linux sys n)
    → IntNumbered (discovered linux sys n)
    → i < j
    → j < n
    → (topo : TopologyConfig) × (discover_topology linux sys n ≡ some topo)
      × ExclusiveCores topo i j
unfolding discover_topology with_counts
discovered-ExclusiveCores linux sys n i j known ints lt ltn =
    let total = (discovered linux sys n).total_numa_nodes in
    let (r, counted) =
      counted_all (discovered linux sys n).gpus (replicate total 0)
        (λ k x at. omega (arith, known k x at, length-replicate {A = ℕ} total 0)) in
    let (g, at_i) = discovered-at linux sys n i (omega (arith, lt, ltn)) in
    let (h, at_j) = discovered-at linux sys n j ltn in
    (
      record (discovered linux sys n) { gpus_per_numa = r },
      rw (with_counts, counted) refl,
      IsCounted-ExclusiveCores (record (discovered linux sys n) { gpus_per_numa = r }) i j g h
          (record {
            starts = λ k x a. (discovered-gpus linux sys n k x ints a (known k x a)).0;
            ends = λ k x a. (discovered-gpus linux sys n k x ints a (known k x a)).1;
            small = λ k x a. (discovered-gpus linux sys n k x ints a (known k x a)).2;
            few = omega (
              arith,
              ints,
              mul-le-mul_right (discovered linux sys n).physical_cores_per_numa
                  (some_node (known i g at_i)),
              mul_comm 1 (discovered linux sys n).physical_cores_per_numa,
            );
            counts = counted;
          })
          at_i at_j lt,
    )

-- The count writes past its array if a GPU has a node past its end.
count_past :
    (gpus : List GpuTopology) (counts : List ℕ) (i : ℕ) (g : GpuTopology)
    → get_elem? gpus i ≡ some g
    → length counts ≤ g.numa_node
    → count_gpus gpus counts ≡ none
count_past gpus counts i g at h = elim (Option-cases (count_gpus gpus counts)) [
  | inl fails ↦ fails
  | inr (r, e) ↦
      let (m, k, before, found, le) = count_above gpus counts r i g e at in
      absurd (omega (arith, h, get_elem?-lt counts g.numa_node m before))
]

-- The guess is node 1 for the second half of several GPUs.
guessed_second : (n g : ℕ) → 2 ≤ n → n / 2 ≤ g → guessed_numa n g ≡ 1
unfolding guessed_numa
guessed_second n g h le = ground (arith, h, le)

-- On Linux with several GPUs and one node: if sysfs has no node for a GPU of the second half, then
-- the count of the GPUs per node writes past the end of its array.
pub one_node_overflow :
    (sys : System) (n g k : ℕ)
    → total_numa_nodes sys ≡ 1
    → n / 2 ≤ g
    → g < n
    → 2 ≤ n
    → queried_numa sys g ≡ negsuc k
    → discover_topology true sys n ≡ none
unfolding discover_topology with_counts discovered gpu_numa discover_gpu
one_node_overflow sys n g k one half lt several unknown =
    let node : gpu_numa sys n g ≡ 1 = rw (gpu_numa, unknown) (guessed_second n g several half) in
    let past : (x : ℕ)
        → x ≡ g
        → length (replicate {A = ℕ} (total_numa_nodes sys) 0) ≤ gpu_numa sys n x =
      λ x same. omega (
        arith,
        length-replicate {A = ℕ} (total_numa_nodes sys) 0,
        one,
        node,
        ap (gpu_numa sys n) same,
      ) in
    rw
      (
        with_counts,
        count_past (gpus_from (discover_gpu sys n) n 0) (replicate (total_numa_nodes sys) 0) g
            (discover_gpu sys n (0 + g)) (get_elem?-gpus_from (discover_gpu sys n) n 0 g lt)
            (past (0 + g) (omega arith)),
      )
      refl

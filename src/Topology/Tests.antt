-- ===== src/Topology/Tests.antt =====
-- Machines with two nodes and with one.
use mathlib.Core.Option.{some-injective}
use gfd.Base.{
  ℕ, zero, suc, ◌+◌, ◌<◌, ◌≡◌, refl, true, Option, none, some, List, [], ◌∷◌, arith, subst,
  if◌then◌else◌, ◌==◌,
}
use gfd.Topology.Text.{fgets, after_dash, atoi, lower, scan_int, skip_char}
use gfd.Topology.{
  SysfsFile, node_online, node0_cpulist, device_numa_node, System, GpuTopology, TopologyConfig,
  discovered, discover_topology, get_exclusive_cores, discover_gpu, gpus_from, total_numa_nodes,
  max_numa, read_line, queried_numa, gpu_numa, guessed_numa, with_counts, count_gpus, clamped,
  cpu_list, cpus_per_range, intra_numa_idx, scan_cpulist,
}
use gfd.Topology.Exclusive.{ExclusiveCores}
use gfd.Topology.Discovery.{NodesKnown, IntNumbered, discovered-ExclusiveCores, one_node_overflow}

-- "0-1", "0-3,8-11", and node 0 for the bus "a" and node 1 for the others
abbrev file : SysfsFile → Option (List ℕ)
file node_online = some (48 ∷ 45 ∷ 49 ∷ 10 ∷ [])
file node0_cpulist = some (48 ∷ 45 ∷ 51 ∷ 44 ∷ 56 ∷ 45 ∷ 49 ∷ 49 ∷ 10 ∷ [])
file (device_numa_node []) = none
file (device_numa_node (c ∷ cs)) = if c == 97 then some (48 ∷ 10 ∷ []) else some (49 ∷ 10 ∷ [])

-- The GPUs have the buses "A", "B", and so on.
abbrev two_nodes : System
two_nodes = record { read_file = file; pci_bus_id = λ g. some ((g + 65) ∷ []) }

-- "0", and "-1" for every device
abbrev one_node : System
one_node = record {
  read_file = λ file. elim file [
    | node_online ↦ some (48 ∷ 10 ∷ [])
    | node0_cpulist ↦ some (48 ∷ 45 ∷ 51 ∷ 10 ∷ [])
    | device_numa_node bus ↦ some (45 ∷ 49 ∷ 10 ∷ [])
  ];
  pci_bus_id = λ g. some (65 ∷ []);
}

is_below :
    {g h : GpuTopology}
    → g.numa_node < total_numa_nodes two_nodes
    → some g ≡ some h
    → h.numa_node < total_numa_nodes two_nodes
is_below lt e = subst (λ x. x.numa_node < total_numa_nodes two_nodes) (some-injective _ _ e) lt

two_nodes-NodesKnown : NodesKnown (discovered true two_nodes 3)
unfolding discovered gpus_from total_numa_nodes max_numa read_line fgets after_dash queried_numa
    atoi gpu_numa discover_gpu guessed_numa lower
two_nodes-NodesKnown zero g at = is_below (omega arith) at
two_nodes-NodesKnown (suc zero) g at = is_below (omega arith) at
two_nodes-NodesKnown (suc (suc zero)) g at = is_below (omega arith) at
two_nodes-NodesKnown (suc (suc (suc i))) g at = absurd (ground (arith, at))

two_nodes-IntNumbered : IntNumbered (discovered true two_nodes 3)
unfolding discovered total_numa_nodes max_numa read_line fgets after_dash atoi cpus_per_range
    cpu_list scan_cpulist scan_int skip_char
two_nodes-IntNumbered = (omega arith, omega arith)

discovered-ExclusiveCores_example :
    (topo : TopologyConfig) × (discover_topology true two_nodes 3 ≡ some topo)
    × ExclusiveCores topo 1 2
discovered-ExclusiveCores_example =
    discovered-ExclusiveCores true two_nodes 3 1 2 two_nodes-NodesKnown two_nodes-IntNumbered
      (omega arith) (omega arith)

one_node_overflow_example : discover_topology true one_node 2 ≡ none
unfolding total_numa_nodes max_numa read_line fgets after_dash queried_numa atoi
one_node_overflow_example =
    one_node_overflow one_node 2 1 0 refl (omega arith) (omega arith) (omega arith) refl

-- The two GPUs of node 1 share its four cores.
second_and_third :
    (elim (discover_topology true two_nodes 3) [
      | none ↦ none
      | some topo ↦ get_exclusive_cores topo 2
    ])
    ≡ some (record { base_cpu = 6; num_cores = 2; stride = 1 })
unfolding discover_topology with_counts count_gpus discovered gpus_from total_numa_nodes max_numa
    read_line fgets after_dash atoi discover_gpu gpu_numa queried_numa lower get_exclusive_cores
    clamped scan_int skip_char cpu_list cpus_per_range guessed_numa intra_numa_idx scan_cpulist
second_and_third = refl

-- The processors of node 0 are "8-15" here, and its GPU is said to have those from 0 to 7.
abbrev late_cpus : System
late_cpus = record {
  read_file = λ file. elim file [
    | node_online ↦ some (48 ∷ 10 ∷ [])
    | node0_cpulist ↦ some (56 ∷ 45 ∷ 49 ∷ 53 ∷ 10 ∷ [])
    | device_numa_node bus ↦ some (48 ∷ 10 ∷ [])
  ];
  pci_bus_id = λ g. some (65 ∷ []);
}

late_cpus-range : let g = discover_gpu late_cpus 1 0 in (g.cpu_start ≡ 0) × (g.cpu_end ≡ 7)
unfolding discover_gpu gpu_numa queried_numa read_line fgets total_numa_nodes max_numa after_dash
    atoi lower cpus_per_range cpu_list scan_cpulist scan_int skip_char
late_cpus-range = (refl, refl)

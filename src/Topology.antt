-- ===== src/Topology.antt =====
-- Which processor cores belong to which GPU (include/gfd/pcie_topology.h). The files of sysfs and the
-- bus ids that the CUDA runtime reports are a parameter. Characters are their codes.
pub mod Text
pub mod Counts
pub mod Exclusive
pub mod Discovery
pub mod Tests
use gfd.Queue.{add32, mul32}
use gfd.Base.{
  ◌%◌, ◌^◌, ℕ, zero, suc, ◌+◌, ◌-◌, ◌*◌, ◌/◌, Bool, true, false, ◌&&◌, ltb, leb, ◌==◌,
  if◌then◌else◌, Option, none, some, List, [], ◌∷◌, map, get_elem?, set, replicate,
}
use gfd.Topology.Text.{ℤ, pos, negsuc, fgets, after_dash, atoi, scan_int, skip_char, lower}

pub data SysfsFile : Type 0 where
  node_online : SysfsFile
  node0_cpulist : SysfsFile
  -- `numa_node` of the device with this bus id
  device_numa_node : List ℕ → SysfsFile

pub record System : Type 0 where
  read_file : SysfsFile → Option (List ℕ)
  -- cudaDeviceGetPCIBusId
  pci_bus_id : ℕ → Option (List ℕ)

pub record GpuTopology : Type 0 where
  gpu_id : ℕ
  numa_node : ℕ
  pcie_bus : ℕ
  cpu_start : ℕ
  cpu_end : ℕ
  ht_offset : ℕ
  num_physical_cores : ℕ

pub record TopologyConfig : Type 0 where
  num_gpus : ℕ
  total_numa_nodes : ℕ
  cpus_per_numa : ℕ
  physical_cores_per_numa : ℕ
  gpus : List GpuTopology
  gpus_per_numa : List ℕ

unfoldable pub recommended_ce_channels : ℕ → ℕ
recommended_ce_channels active_gpus =
    if leb active_gpus 2 then 3 else if leb active_gpus 4 then 2 else 1

pub record Cores : Type 0 where
  base_cpu : ℕ
  num_cores : ℕ
  stride : ℕ

-- The GPUs of the node among the first `gpu_id`.
unfoldable pub intra_numa_idx : List GpuTopology → ℕ → ℕ → ℕ
intra_numa_idx gpus numa zero = 0
intra_numa_idx [] numa (suc gpu_id) = 0
intra_numa_idx (g ∷ gpus) numa (suc gpu_id) =
    (if g.numa_node == numa then 1 else 0) + intra_numa_idx gpus numa gpu_id

-- The ints are their 32 bits.
abbrev pub sub32 : ℕ → ℕ → ℕ
sub32 a b = (a + 2 ^ 32 - b) % 2 ^ 32

-- The order of ints
abbrev pub int_lt : ℕ → ℕ → Bool
int_lt a b = ltb ((a + 2 ^ 31) % 2 ^ 32) ((b + 2 ^ 31) % 2 ^ 32)

-- Division by a positive int, towards 0.
abbrev pub int_div : ℕ → ℕ → ℕ
int_div a n = if ltb a (2 ^ 31) then a / n else (2 ^ 32 - (2 ^ 32 - a) / n) % 2 ^ 32

-- The cores cut off at the last one of the node.
unfoldable pub clamped : ℕ → ℕ → ℕ → Cores
clamped cpu_end base n = record {
  base_cpu = base;
  num_cores = if int_lt cpu_end (sub32 (add32 base n) 1) then add32 (sub32 cpu_end base) 1 else n;
  stride = 1;
}

-- `none` where the code reads past the end of an array or divides by 0.
unfoldable pub get_exclusive_cores : TopologyConfig → ℕ → Option Cores
get_exclusive_cores topo gpu_id = elim (get_elem? topo.gpus gpu_id) [
  | none ↦ none
  | some g ↦ elim (get_elem? topo.gpus_per_numa g.numa_node) [
    | none ↦ none
    | some zero ↦ none
    | some (suc n) ↦
        let cores_per_gpu = int_div topo.physical_cores_per_numa (suc n) in
        some (
          clamped g.cpu_end
            (add32 g.cpu_start (mul32 (intra_numa_idx topo.gpus g.numa_node gpu_id) cores_per_gpu))
            cores_per_gpu)
  ]
]

-- fopen and the first fgets
unfoldable pub read_line : System → SysfsFile → ℕ → Option (List ℕ)
read_line sys file size = elim (sys.read_file file) [ none ↦ none | some text ↦ fgets size text ]

unfoldable pub max_numa : System → ℤ
max_numa sys = elim (read_line sys node_online 64) [
  | none ↦ pos 0
  | some buf ↦ elim (after_dash buf) [ none ↦ pos 0 | some rest ↦ atoi rest ]
]

-- `max_numa + 1`, which is no less than 0 for the numbers that `atoi` finds after a dash.
unfoldable pub total_numa_nodes : System → ℕ
total_numa_nodes sys = elim (max_numa sys) [ pos n ↦ n + 1 | negsuc n ↦ 0 ]

pub record CpuList : Type 0 where
  node0_start : ℕ
  node0_end : ℕ
  ht_start : ℕ

-- sscanf with "%d-%d,%d-": what does not match leaves the rest as it was.
unfoldable pub scan_cpulist : List ℕ → CpuList → CpuList
scan_cpulist buf l = elim (scan_int buf) [
  | none ↦ l
  | some (first, r1) ↦
      let l1 = record l { node0_start = first } in
      elim (skip_char 45 r1) [
        | none ↦ l1
        | some r2 ↦ elim (scan_int r2) [
          | none ↦ l1
          | some (last, r3) ↦
              let l2 = record l1 { node0_end = last } in
              elim (skip_char 44 r3) [
                | none ↦ l2
                | some r4 ↦ elim (scan_int r4) [
                  | none ↦ l2
                  | some (ht, r5) ↦ record l2 { ht_start = ht }
                ]
              ]
        ]
      ]
]

unfoldable pub cpu_list : System → CpuList
cpu_list sys =
    let default : CpuList = record { node0_start = 0; node0_end = 63; ht_start = 128 } in
    elim (read_line sys node0_cpulist 256) [ none ↦ default | some buf ↦ scan_cpulist buf default ]

unfoldable pub cpus_per_range : System → ℕ
cpus_per_range sys = let l = cpu_list sys in add32 (sub32 l.node0_end l.node0_start) 1

-- The node that sysfs has for the GPU, and -1 if it has none.
unfoldable pub queried_numa : System → ℕ → ℤ
queried_numa sys g = elim (sys.pci_bus_id g) [
  | none ↦ negsuc 0
  | some bus ↦ elim (read_line sys (device_numa_node (map lower bus)) 16) [
    | none ↦ negsuc 0
    | some nbuf ↦ atoi nbuf
  ]
]

unfoldable pub guessed_numa : ℕ → ℕ → ℕ
guessed_numa num_gpus g = if ltb 1 num_gpus && leb (num_gpus / 2) g then 1 else 0

unfoldable pub gpu_numa : System → ℕ → ℕ → ℕ
gpu_numa sys num_gpus g = elim (queried_numa sys g) [
  | negsuc n ↦ guessed_numa num_gpus g
  | pos n ↦ if leb (total_numa_nodes sys) n then guessed_numa num_gpus g else n
]

unfoldable pub discover_gpu : System → ℕ → ℕ → GpuTopology
discover_gpu sys num_gpus g =
    let numa = gpu_numa sys num_gpus g in
    let range = cpus_per_range sys in
    record {
      gpu_id = g;
      numa_node = numa;
      pcie_bus = g;
      cpu_start = mul32 numa range;
      cpu_end = sub32 (mul32 (add32 numa 1) range) 1;
      ht_offset = sub32 (cpu_list sys).ht_start (cpu_list sys).node0_start;
      num_physical_cores = range;
    }

-- Not on Linux.
unfoldable pub assumed_gpu : ℕ → GpuTopology
assumed_gpu g = record {
  gpu_id = g;
  numa_node = 0;
  pcie_bus = g;
  cpu_start = 0;
  cpu_end = 15;
  ht_offset = 0;
  num_physical_cores = 8;
}

-- The loop over the GPUs, from `g` on.
unfoldable pub gpus_from : (ℕ → GpuTopology) → ℕ → ℕ → List GpuTopology
gpus_from gpu zero g = []
gpus_from gpu (suc n) g = gpu g ∷ gpus_from gpu n (g + 1)

-- `none` where an increment is past the end of the array.
unfoldable pub count_gpus : List GpuTopology → List ℕ → Option (List ℕ)
count_gpus [] counts = some counts
count_gpus (g ∷ gpus) counts = elim (get_elem? counts g.numa_node) [
  | none ↦ none
  | some n ↦ count_gpus gpus (set counts g.numa_node (n + 1))
]

-- The end of discover_topology, common to all systems.
unfoldable pub with_counts : TopologyConfig → Option TopologyConfig
with_counts topo = elim (count_gpus topo.gpus (replicate topo.total_numa_nodes 0)) [
  | none ↦ none
  | some counts ↦ some (record topo { gpus_per_numa = counts })
]

unfoldable pub discovered : Bool → System → ℕ → TopologyConfig
discovered linux sys num_gpus =
    if linux
    then record {
      num_gpus = num_gpus;
      total_numa_nodes = total_numa_nodes sys;
      cpus_per_numa = mul32 (cpus_per_range sys) 2;
      physical_cores_per_numa = cpus_per_range sys;
      gpus = gpus_from (discover_gpu sys num_gpus) num_gpus 0;
      gpus_per_numa = [];
    }
    else record {
      num_gpus = num_gpus;
      total_numa_nodes = 1;
      cpus_per_numa = 16;
      physical_cores_per_numa = 8;
      gpus = gpus_from assumed_gpu num_gpus 0;
      gpus_per_numa = [];
    }

unfoldable pub discover_topology : Bool → System → ℕ → Option TopologyConfig
discover_topology linux sys num_gpus = with_counts (discovered linux sys num_gpus)

-- ===== src/Fat32/Clusters.antt =====
-- The cluster chain of a file: where it ends, and that getRootFile reads it into its buffer.
use rainbow_os.Prelude.{
  ℕ, ◌+◌, ◌*◌, ◌%◌, ◌^◌, ◌≤◌, ◌<◌, ◌≡◌, ap, ◌↔◌, true, false, List, [], ◌∷◌, arith,
}
use rainbow_os.Memory.{Mem}
use rainbow_os.Memory.Words.{read16-eq, read32-eq}
use rainbow_os.Disk.Packet.{Sectors}
use rainbow_os.Fat32.Layout.Vbr
use rainbow_os.Fat32.{
  Fat32, is_cluster_end, next_cluster, is_multicluster, first_data_sector, cluster_lba,
}

-- A cluster number ends a chain exactly when its low 28 bits are 0xFFFFFF8 or more.
pub is_cluster_end_iff : (n : ℕ) → (is_cluster_end n ≡ true) ↔ (0xFFFFFF8 ≤ n % 2 ^ 28)
unfolding is_cluster_end
is_cluster_end_iff n = ground arith

-- readDir takes a directory that goes on in another cluster for one that ends, if the low four bits
-- of that cluster's number are 8 or more: both numbers below are no end of a chain, and only the
-- first is refused.
pub is_multicluster_misses :
    (c : ℕ)
    → c < 0xFFFFFF0
    → (is_cluster_end c ≡ false) × ((is_multicluster c ≡ true) ↔ (c % 16 < 8))
unfolding is_cluster_end is_multicluster
is_multicluster_misses c h = (ground arith, ground arith)

-- From `c` on the table leads through the clusters `cs` to an end.
abbrev pub ClusterChain : (ℕ → ℕ) → ℕ → List ℕ → Type 0
ClusterChain next c [] = is_cluster_end c ≡ true
ClusterChain next c (d ∷ ds) = (c ≡ d) × (is_cluster_end d ≡ false) × ClusterChain next (next d) ds

-- The first sectors of the clusters stand in the memory from `buffer` on, one behind the other.
abbrev pub HoldsClusters : Sectors → (ℕ → ℕ) → Mem → ℕ → List ℕ → Type 0
HoldsClusters sector lba m buffer [] = Unit {0}
HoldsClusters sector lba m buffer (d ∷ ds) =
    ((k : ℕ) → k < 512 → m (buffer + k) ≡ sector (lba d) k)
    × HoldsClusters sector lba m (buffer + 512) ds

-- The bytes of the boot record and of the table are the same in both memories.
abbrev pub SameTables : Fat32 → ℕ → Mem → Mem → Type 0
SameTables fs fat_bytes m m' =
    ((x : ℕ) → fs.vbr ≤ x → x < fs.vbr + 512 → m' x ≡ m x)
    × ((x : ℕ) → fs.fat_ptr ≤ x → x < fs.fat_ptr + fat_bytes → m' x ≡ m x)

pub next_cluster-eq :
    (fs : Fat32) (fat_bytes d : ℕ) (m m' : Mem)
    → SameTables fs fat_bytes m m'
    → 4 * d + 4 ≤ fat_bytes
    → next_cluster fs m' d ≡ next_cluster fs m d
unfolding next_cluster
next_cluster-eq fs fat_bytes d m m' same h =
    ap (λ (w : ℕ). w % 2 ^ 28)
      (read32-eq m m' (fs.fat_ptr + 4 * d) (λ x l r. same.1 x (omega arith) (omega arith)))

pub cluster_lba-eq :
    (fs : Fat32) (fat_bytes d : ℕ) (m m' : Mem)
    → SameTables fs fat_bytes m m'
    → cluster_lba fs m' d ≡ cluster_lba fs m d
unfolding cluster_lba first_data_sector Vbr.reserved_sectors Vbr.number_of_fats Vbr.sectors_per_fat
    Vbr.sectors_per_cluster
cluster_lba-eq fs fat_bytes d m m' same =
    let s = same.0 in
    let spc : m' (fs.vbr + 13) ≡ m (fs.vbr + 13) = s _ (omega arith) (omega arith) in
    let res =
      read16-eq m m' (fs.vbr + 14) (s _ (omega arith) (omega arith))
        (s _ (omega arith) (omega arith)) in
    let fats : m' (fs.vbr + 16) ≡ m (fs.vbr + 16) = s _ (omega arith) (omega arith) in
    let per = read32-eq m m' (fs.vbr + 36) (λ x l r. s x (omega arith) (omega arith)) in
    rw (spc, res, fats, per)

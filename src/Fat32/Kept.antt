-- ===== src/Fat32/Kept.antt =====
-- lib/fs/fat32.cpp: the entry of a file, and what getRootFile gives for it, when names are put on the
-- heap before.
use rainbow_os.Prelude.{
  ℕ, ◌+◌, ◌*◌, ◌/◌, ◌^◌, ◌≤◌, ◌<◌, ◌≡◌, refl, sym, ap, subst, ◌∙◌, inl, inr, List, [], ◌∷◌, arith,
  length,
}
use rainbow_os.Memory.{Mem}
use rainbow_os.Memory.Words.{read16-eq, read32-eq}
use rainbow_os.Heap.Blocks.{InReserved}
use rainbow_os.Heap.Bump.{bump, free_at-Chain}
use rainbow_os.Heap.Safety.{InReserved-le}
use rainbow_os.Disk.{DiskRead}
use rainbow_os.Disk.Packet.{Sectors}
use rainbow_os.Fat32.{Fat32, next_cluster, cluster_lba}
use rainbow_os.Fat32.Layout.DirEntry
use rainbow_os.Fat32.Clusters.{
  ClusterChain, HoldsClusters, SameTables, next_cluster-eq, cluster_lba-eq,
}
use rainbow_os.Fat32.Chain.{InTable}
use rainbow_os.Fat32.Contents.{Entry, Stored}
use rainbow_os.Fat32.Entries.{Grown}

-- The chain of clusters is that of the memory before, where the table is the same.
pub ClusterChain-eq :
    (fs : Fat32) (fat_bytes c : ℕ) (cs : List ℕ) (m m' : Mem)
    → SameTables fs fat_bytes m m'
    → InTable fat_bytes cs
    → ClusterChain (next_cluster fs m) c cs
    → ClusterChain (next_cluster fs m') c cs
ClusterChain-eq fs fat_bytes c [] m m' same t ch = ch
ClusterChain-eq fs fat_bytes c (d ∷ ds) m m' same t ch = (
  ch.0,
  ch.1,
  ClusterChain-eq fs fat_bytes (next_cluster fs m' d) ds m m' same t.1 (
      subst (λ (q : ℕ). ClusterChain (next_cluster fs m) q ds)
        (sym (next_cluster-eq fs fat_bytes d m m' same t.0)) ch.2),
)

pub HoldsClusters-lba :
    (sector : Sectors) (lba lba' : ℕ → ℕ) (m : Mem) (buffer : ℕ) (cs : List ℕ)
    → ((d : ℕ) → lba d ≡ lba' d)
    → HoldsClusters sector lba m buffer cs
    → HoldsClusters sector lba' m buffer cs
HoldsClusters-lba sector lba lba' m buffer [] same h = tt
HoldsClusters-lba sector lba lba' m buffer (d ∷ ds) same h = (
  λ k lt. h.0 k lt ∙ ap (λ (q : ℕ). sector q k) (same d),
  HoldsClusters-lba sector lba lba' m (buffer + 512) ds same h.1,
)

-- An entry of a file on a heap that only grew.
module _ (sector : Sectors) (disk_read : DiskRead) (fs : Fat32)
    (fuel heap last c room room' result entry fat_bytes : ℕ) (ss ss' cs : List ℕ) (m m1 : Mem)
    (given : Entry sector disk_read fs fuel heap last room result entry fat_bytes ss cs m)
    (g : Grown heap last c ss ss' room room' m m1) where
  own : (x : ℕ) → InReserved (bump ss room) heap x → InReserved (bump ss' room') heap x
  own x i = elim (g.blocks x (inr i)) [
    | inl below ↦ absurd (omega (arith, InReserved-le (bump ss room) heap x i))
    | inr still ↦ still
  ]

  grown_tables : SameTables fs fat_bytes m m1
  grown_tables = (
    λ x lo hi. g.kept x (inr (given.boot_record x lo hi)),
    λ x lo hi. g.kept x (inr (given.table x lo hi)),
  )

  entry_same : (x : ℕ) → entry ≤ x → x < entry + 32 → m1 x ≡ m x
  entry_same x lo hi = g.kept x (inr (given.entry_in x lo hi))

  size_same : DirEntry.size m1 entry ≡ DirEntry.size m entry
  unfolding DirEntry.size
  size_same = read32-eq m m1 (entry + 28) (λ x lo hi. entry_same x (omega arith) (omega arith))

  first_same :
      DirEntry.high_cluster_number m1 entry * 2 ^ 16 + DirEntry.low_cluster_number m1 entry
      ≡ DirEntry.high_cluster_number m entry * 2 ^ 16 + DirEntry.low_cluster_number m entry
  unfolding DirEntry.high_cluster_number DirEntry.low_cluster_number
  first_same =
      let high =
        read16-eq m m1 (entry + 20) (entry_same (entry + 20) (omega arith) (omega arith))
          (entry_same _ (omega arith) (omega arith)) in
      let low =
        read16-eq m m1 (entry + 26) (entry_same (entry + 26) (omega arith) (omega arith))
          (entry_same _ (omega arith) (omega arith)) in
      rw (high, low) refl

  pub Entry-Grown :
      (DirEntry.size m entry / 512 + 1) * 512 + 8 + 21 * c ≤ room
      → length ss + c + 1 < fuel
      → Entry sector disk_read fs fuel heap last room' result entry fat_bytes ss' cs m1
  Entry-Grown fits walks = record {
    chain = g.after.chain;
    bytes = g.after.bytes;
    low = given.low;
    high = given.high;
    boot_record = λ x lo hi. own x (given.boot_record x lo hi);
    table = λ x lo hi. own x (given.table x lo hi);
    entry_in = λ x lo hi. own x (given.entry_in x lo hi);
    result_in =
        let top = free_at-Chain ss room heap last m given.chain in
        let top1 = free_at-Chain ss' room' heap last m1 g.after.chain in
        omega (arith, given.result_in, g.shrinks);
    entry_off_result = given.entry_off_result;
    clusters =
        subst (λ (q : ℕ). ClusterChain (next_cluster fs m1) q cs) (sym first_same)
          (ClusterChain-eq fs fat_bytes _ cs m m1 grown_tables given.in_table given.clusters);
    in_table = given.in_table;
    enough_sectors = omega (arith, given.enough_sectors, size_same);
    fits = omega (arith, fits, size_same, g.left);
    rounds = given.rounds;
    walks = omega (arith, walks, g.count);
  }

  pub Stored-Grown :
      (m' : Mem)
      → Stored sector disk_read fs fuel heap last room' result entry fat_bytes ss' cs m1 m'
      → Stored sector disk_read fs fuel heap last room result entry fat_bytes ss cs m m'
  Stored-Grown m' s = record {
    code = s.code;
    size = s.size ∙ size_same;
    content =
        HoldsClusters-lba sector (cluster_lba fs m1) (cluster_lba fs m) m' _ cs
          (λ d. cluster_lba-eq fs fat_bytes d m m1 grown_tables) s.content;
  }

-- ===== src/Fat32/Chain.antt =====
-- The loop of getRootFile that reads a file: it brings the chain of clusters into the buffer.
use rainbow_os.Prelude.{
  ℕ, zero, suc, ◌+◌, ◌-◌, ◌*◌, ◌/◌, ◌%◌, ◌^◌, ◌≤◌, ◌<◌, ◌≡◌, refl, sym, ap, subst, ◌∙◌, true, false,
  ◌||◌, List, [], ◌∷◌, arith, length, mul32, Outcome, ok,
}
use rainbow_os.Memory.{Mem, IsBytes, inside}
use rainbow_os.Disk.{DiskRead}
use rainbow_os.Disk.Packet.{Sectors}
use rainbow_os.Disk.Chunk.{scratch, Loads}
use rainbow_os.Disk.Sectors.{SectorDisk}
use rainbow_os.Fat32.{Fat32, is_cluster_end, next_cluster, cluster_lba}
use rainbow_os.Fat32.Files.{read_clusters}
use rainbow_os.Fat32.Clusters.{
  ClusterChain, HoldsClusters, SameTables, next_cluster-eq, cluster_lba-eq,
}

read_clusters_end :
    (disk_read : DiskRead) (fs : Fat32) (fuel j c buffer : ℕ) (m : Mem)
    → is_cluster_end c ≡ true
    → read_clusters disk_read fs (suc fuel) j c buffer m ≡ ok m
unfolding read_clusters
read_clusters_end disk_read fs fuel j c buffer m e = rw e

read_clusters_next :
    (disk_read : DiskRead) (fs : Fat32) (fuel j c buffer a : ℕ) (m m1 : Mem)
    → is_cluster_end c ≡ false
    → buffer + mul32 j 512 ≡ a
    → disk_read (cluster_lba fs m c) a 1 m ≡ ok (true, m1)
    → read_clusters disk_read fs (suc fuel) j c buffer m
      ≡ read_clusters disk_read fs fuel (j + 1) (next_cluster fs m1 c) buffer m1
unfolding read_clusters
read_clusters_next disk_read fs fuel j c buffer a m m1 e at r = rw (e, at, r)

cluster_lba-lt : (fs : Fat32) (m : Mem) (c : ℕ) → cluster_lba fs m c < 2 ^ 32
unfolding cluster_lba
cluster_lba-lt fs m c = omega arith

-- The buffer of `n` sectors lies away from the tables and from the scratch, as do the tables, and
-- inside the address space.
pub record Separate (fs : Fat32) (fat_bytes buffer n : ℕ) : Type 0 where
  pub fits : buffer + n * 512 ≤ 2 ^ 32
  pub buffer_free : (x : ℕ) → inside buffer (n * 512) x ≡ true → scratch x ≡ false
  pub vbr_safe :
      (x : ℕ) → fs.vbr ≤ x → x < fs.vbr + 512 → inside buffer (n * 512) x || scratch x ≡ false
  pub fat_safe :
      (x : ℕ)
      → fs.fat_ptr ≤ x
      → x < fs.fat_ptr + fat_bytes
      → inside buffer (n * 512) x || scratch x ≡ false

-- Every cluster has its entry in the table.
abbrev pub InTable : ℕ → List ℕ → Type 0
InTable fat_bytes [] = Unit {0}
InTable fat_bytes (d ∷ ds) = (4 * d + 4 ≤ fat_bytes) × InTable fat_bytes ds

module _ (sector : Sectors) (disk_read : DiskRead) (disk : SectorDisk sector disk_read) (fs : Fat32)
    (fat_bytes buffer n : ℕ) (apart : Separate fs fat_bytes buffer n) (m0 : Mem) where
  -- What the loop leaves when it starts in memory `m` at round `j`.
  abbrev pub Reads : Mem → ℕ → List ℕ → Outcome Mem → Type 0
  Reads m j cs o =
      (m' : Mem) × (o ≡ ok m')
      × HoldsClusters sector (cluster_lba fs m0) m' (buffer + 512 * j) cs
      × ((x : ℕ)
          → inside (buffer + 512 * j) (length cs * 512) x ≡ false
          → scratch x ≡ false
          → m' x ≡ m x)

  -- One sector into round `j` leaves the tables as they are.
  one_sector :
      (j d : ℕ) (m : Mem)
      → IsBytes m
      → SameTables fs fat_bytes m0 m
      → j < n
      → (m1 : Mem) × (disk_read (cluster_lba fs m d) (buffer + 512 * j) 1 m ≡ ok (true, m1))
        × Loads sector (cluster_lba fs m0 d) (buffer + 512 * j) 1 m m1
        × IsBytes m1
        × SameTables fs fat_bytes m0 m1
  one_sector j d m b same h =
      let e = cluster_lba-eq fs fat_bytes d m0 m same in
      let (m1, r, l, b1) =
        disk.reads (cluster_lba fs m d) (buffer + 512 * j) 1 m b (omega arith)
          (omega (arith, cluster_lba-lt fs m d)) (omega (arith, apart.fits))
          (λ x i. apart.buffer_free x (ground arith)) in
      (
        m1,
        r,
        subst (λ q. Loads sector q (buffer + 512 * j) 1 m m1) e l,
        b1,
        (
          λ x lo hi.
              l.1 x (ground (arith, apart.vbr_safe x lo hi))
                (ground (arith, apart.vbr_safe x lo hi))
              ∙ same.0 x lo hi,
          λ x lo hi.
              l.1 x (ground (arith, apart.fat_safe x lo hi))
                (ground (arith, apart.fat_safe x lo hi))
              ∙ same.1 x lo hi,
        ),
      )

  -- A byte of sector `j` lies in the buffer.
  in_buffer : (j k : ℕ) → j < n → k < 512 → inside buffer (n * 512) (buffer + 512 * j + k) ≡ true
  in_buffer j k h lt = ground arith

  -- A byte of the sector in hand is none of those that the later rounds fill.
  later_sectors : (a w k : ℕ) → k < 512 → inside (a + 512) w (a + k) ≡ false
  later_sectors a w k lt = ground arith

  -- What one sector's read has put at byte `k`.
  loaded :
      (j k lba : ℕ) (m m1 : Mem)
      → Loads sector lba (buffer + 512 * j) 1 m m1
      → k < 512
      → m1 (buffer + 512 * j + k) ≡ sector lba k
  loaded j k lba m m1 l lt =
      let at = buffer + 512 * j in
      let off : at + k - at ≡ k = omega arith in
      let whole : lba + k / 512 ≡ lba = omega arith in
      let rest : k % 512 ≡ k = omega arith in
      l.0 (at + k) (ground arith)
      ∙ ap (λ (q : ℕ). sector (lba + q / 512) (q % 512)) off
      ∙ ap (λ (q : ℕ). sector q (k % 512)) whole
      ∙ ap (λ (q : ℕ). sector lba q) rest

  -- For a chain of clusters whose entries lie in the table, and a buffer with room for them from round
  -- `j` on, the loop succeeds: in order, each cluster's first sector stands in the buffer, and nothing else
  -- changes but the scratch of the disk. The buffer, the scratch and the tables lie apart. One
  -- round more than there are clusters is enough.
  pub read_clusters-Reads :
      (cs : List ℕ) (fuel j c : ℕ) (m : Mem)
      → IsBytes m
      → SameTables fs fat_bytes m0 m
      → ClusterChain (next_cluster fs m0) c cs
      → InTable fat_bytes cs
      → j + length cs ≤ n
      → length cs < fuel
      → Reads m j cs (read_clusters disk_read fs fuel j c buffer m)
  read_clusters-Reads cs zero j c m b same ch t le h = absurd (omega arith)
  read_clusters-Reads [] (suc fuel) j c m b same ch t le h =
      (m, read_clusters_end disk_read fs fuel j c buffer m ch, tt, λ x i o. refl)
  read_clusters-Reads (d ∷ ds) (suc fuel) j c m b same ch t le h =
      let (m1, r, l, b1, same1) = one_sector j d m b same (omega arith) in
      let nx = next_cluster-eq fs fat_bytes d m0 m1 same1 t.0 in
      let (m', e, holds, frame) =
        read_clusters-Reads ds fuel (j + 1) (next_cluster fs m0 d) m1 b1 same1 ch.2 t.1
          (omega arith) (omega arith) in
      let at : buffer + 512 * (j + 1) ≡ buffer + 512 * j + 512 = omega arith in
      let place : buffer + mul32 j 512 ≡ buffer + 512 * j = omega (arith, apart.fits) in
      (
        m',
        ap (λ (q : ℕ). read_clusters disk_read fs (suc fuel) j q buffer m) ch.0
            ∙ read_clusters_next disk_read fs fuel j d buffer (buffer + 512 * j) m m1 ch.1 place r
            ∙ ap (λ (q : ℕ). read_clusters disk_read fs fuel (j + 1) q buffer m1) nx
            ∙ e,
        (
          λ k lt.
              frame (buffer + 512 * j + k)
                (subst (λ (q : ℕ). inside q (length ds * 512) (buffer + 512 * j + k) ≡ false)
                  (sym at) (later_sectors (buffer + 512 * j) (length ds * 512) k lt))
                (apart.buffer_free (buffer + 512 * j + k) (in_buffer j k (omega arith) lt))
              ∙ loaded j k (cluster_lba fs m0 d) m m1 l lt,
          subst (λ q. HoldsClusters sector (cluster_lba fs m0) m' q ds) at holds,
        ),
        λ x i o. ground (arith, frame x, l.1 x),
      )

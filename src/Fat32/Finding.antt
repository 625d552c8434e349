-- ===== src/Fat32/Finding.antt =====
-- lib/fs/fat32.cpp: the loop of getRootFile over the entries of the directory.
use rainbow_os.Prelude.{
  ℕ, zero, suc, ◌+◌, ◌-◌, ◌*◌, ◌≤◌, ◌<◌, ◌≡◌, refl, ap, subst, ◌∙◌, true, false, List, arith, ◌==◌,
  eq→==, length, Outcome, ok,
}
use rainbow_os.Memory.{Mem}
use rainbow_os.Disk.{DiskRead}
use rainbow_os.Fat32.{Fat32}
use rainbow_os.Fat32.Files.{fill3, load_file, find_file}
use rainbow_os.Fat32.Kinds.{Kind}
use rainbow_os.Fat32.Entries.{Grown, Grown-refl}
use rainbow_os.Fat32.Rounds.{
  entry_at, Searched, Matches, At, same_directory, find_file-Round, find_file_end,
}

module _ (disk_read : DiskRead) (fuel heap last : ℕ) (fs : Fat32)
    (lfn_str directory file result k n room : ℕ) (kinds : ℕ → Kind) (ss : List ℕ) (m : Mem)
    (given : Searched disk_read fuel heap last fs lfn_str directory file result k n room kinds ss
      m) where
  -- Entries whose names differ from that of the file are passed over.
  abbrev find_at : ℕ → ℕ → Mem → Outcome (ℕ × Mem)
  find_at rounds i m' = find_file disk_read fuel heap fs rounds lfn_str i directory file result m'

  abbrev Passed : ℕ → ℕ → ℕ → Type 0
  Passed rounds left j =
      (ss' : List ℕ) × (room' : ℕ) × (m' : Mem) × (find_at rounds 0 m ≡ find_at left j m')
      × At disk_read fuel heap last fs lfn_str directory file result k n room kinds ss m given j ss'
          room' m'

  find_file-Passed :
      (j left rounds : ℕ)
      → rounds ≡ j + left
      → j ≤ n
      → ((t : ℕ)
          → t < j
          → ¬ Matches disk_read fuel heap last fs lfn_str directory file result k n room kinds ss m
              t)
      → 21 * j ≤ room
      → length ss + j < fuel
      → Passed rounds left j
  find_file-Passed zero left rounds count le differ fits walks =
      let all : rounds ≡ left = omega arith in
      (ss, room, m, ap (λ (q : ℕ). find_at q 0 m) all, Grown-refl heap last ss room m given.blocks)
  find_file-Passed (suc j) left rounds count le differ fits walks =
      let (ss1, room1, m1, e1, g1) =
        find_file-Passed j (suc left) rounds (omega arith) (omega arith)
          (λ t h. differ t (omega arith)) (omega arith) (omega arith) in
      let (r, ss', room', m', e, decides, g) =
        find_file-Round disk_read fuel heap last fs lfn_str directory file result k n room kinds ss
          m given j left room1 ss1 m1 g1 (omega arith) (omega arith) (omega arith) in
      let other : (r == 0) ≡ false =
        ground (arith, λ (z : r ≡ 0). differ j (omega arith) (decides.0 z)) in
      let round : find_at (suc left) j m1 ≡ find_at left (j + 1) m' = e ∙ rw other refl in
      let here : j + 1 ≡ suc j = omega arith in
      subst (λ (q : ℕ). Passed rounds left q) here (ss', room', m', e1 ∙ round, g)

  -- The loop stops at the first entry with the name of the file.
  pub find_file-Hits :
      (i rounds : ℕ)
      → i < n
      → Matches disk_read fuel heap last fs lfn_str directory file result k n room kinds ss m i
      → ((t : ℕ)
          → t < i
          → ¬ Matches disk_read fuel heap last fs lfn_str directory file result k n room kinds ss m
              t)
      → 21 * (i + 1) ≤ room
      → length ss + i + 1 < fuel
      → i < rounds
      → (ss' : List ℕ) × (room' : ℕ) × (m' : Mem) × (find_file disk_read fuel heap fs rounds lfn_str
            0 directory file result m
          ≡ load_file disk_read fuel heap fs result
              (entry_at disk_read fuel heap last fs lfn_str directory file result k n room kinds ss
                m i)
              m')
        × Grown heap last (i + 1) ss ss' room room' m m'
  find_file-Hits i rounds lt match differ fits walks enough =
      let left = rounds - i - 1 in
      let (ss1, room1, m1, e1, g1) =
        find_file-Passed i (suc left) rounds (omega arith) (omega arith) differ (omega arith)
          (omega arith) in
      let (r, ss', room', m', e, decides, g) =
        find_file-Round disk_read fuel heap last fs lfn_str directory file result k n room kinds ss
          m given i left room1 ss1 m1 g1 lt fits walks in
      let equal : (r == 0) ≡ true = eq→== _ _ (decides.1 match) in
      (ss', room', m', e1 ∙ e ∙ rw equal refl, g)

  -- Where no entry has the name of the file, the search ends with the code 1.
  pub find_file-Misses :
      (rounds : ℕ)
      → ((t : ℕ)
          → t < n
          → ¬ Matches disk_read fuel heap last fs lfn_str directory file result k n room kinds ss m
              t)
      → 21 * n ≤ room
      → length ss + n < fuel
      → n < rounds
      → (ss' : List ℕ) × (room' : ℕ) × (m' : Mem) × (find_file disk_read fuel heap fs rounds lfn_str
            0 directory file result m
          ≡ ok (result, fill3 result 1 0 0 m'))
        × Grown heap last n ss ss' room room' m m'
  find_file-Misses rounds differ fits walks enough =
      let left = rounds - n - 1 in
      let (ss', room', m', e, g) =
        find_file-Passed n (suc left) rounds (omega arith) (omega arith) differ fits walks in
      let d =
        same_directory disk_read fuel heap last fs lfn_str directory file result k n room kinds ss m
          given g in
      (
        ss',
        room',
        m',
        e
            ∙ find_file_end disk_read fuel heap fs left lfn_str n directory file result m'
                (ground (arith, d.0)),
        g,
      )

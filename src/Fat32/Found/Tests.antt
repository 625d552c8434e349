-- ===== src/Fat32/Found/Tests.antt =====
-- The search for a name that no entry has.
use rainbow_os.Prelude.{ℕ, zero, suc, ◌+◌, ◌*◌, ◌<◌, ◌≡◌, refl, inl, inr, arith, ok}
use rainbow_os.Memory.{Mem, IsBytes, read32}
use rainbow_os.Str.Terminated.{IsString}
use rainbow_os.Heap.{get_next, get_reserved}
use rainbow_os.Fat32.Layout.DirEntry
use rainbow_os.Fat32.Names.{NameLength}
use rainbow_os.Fat32.Files.{num_entries, entries, find_file}
use rainbow_os.Fat32.Kinds.{IsKind}
use rainbow_os.Fat32.Rounds.{Searched, Matches}
use rainbow_os.Fat32.Found.{find_file-missing}
use rainbow_os.Fat32.Found.Machine.{volume, disk, machine, kinds, block_sizes}

file-NameLength : NameLength machine 0x10438 1
file-NameLength = record { most = omega arith; chars = λ j h. ground arith; space = λ h. refl }

machine-IsBytes : IsBytes machine
machine-IsBytes x = ground arith

kinds-IsKind : (i : ℕ) → i < 2 → IsKind machine (0x10418 + 32 * i) (kinds i)
unfolding DirEntry.attributes
kinds-IsKind zero h = refl
kinds-IsKind (suc zero) h = (omega arith, omega arith, file-NameLength, λ j le. ground arith)
kinds-IsKind (suc (suc i)) h = absurd (omega arith)

searched :
    (str len : ℕ)
    → IsString machine str len
    → str + len < 0x2000
    → Searched disk 14 0x10000 0x12000 volume 0x1010 0x10620 str 0x10634 len 2 6584 kinds
        block_sizes machine
unfolding get_next get_reserved read32 num_entries entries
searched str len s low = record {
  blocks = record {
    chain = (
      refl,
      refl,
      (
        refl,
        refl,
        (refl, refl, (refl, refl, (refl, refl, (refl, refl, (refl, omega arith, refl, refl))))),
      ),
    );
    bytes = machine-IsBytes;
  };
  high = omega arith;
  counted = refl;
  directory_in = λ x lo hi. inr (inr (inr (inr (inl (refl, lo, omega arith)))));
  entry_in = λ i h x lo hi. inr (inr (inl (refl, omega arith, omega arith)));
  kind = kinds-IsKind;
  file_string = s;
  file_in = λ x lo hi. inl (omega arith);
  lfn_string = record { chars = λ i h. ground arith; closed = refl };
  lfn_in = λ x lo hi. inl (omega arith);
  compares = omega arith;
}

-- The string ".TXT", which is the name of no entry
missing-Searched :
    Searched disk 14 0x10000 0x12000 volume 0x1010 0x10620 0x1001 0x10634 4 2 6584 kinds block_sizes
      machine
missing-Searched =
    searched 0x1001 4 (record { chars = λ i h. ground arith; closed = refl }) (omega arith)

no_entry :
    (t : ℕ)
    → t < 2
    → ¬ Matches disk 14 0x10000 0x12000 volume 0x1010 0x10620 0x1001 0x10634 4 2 6584 kinds
        block_sizes machine t
no_entry zero h p = absurd (omega (arith, p.0))
no_entry (suc zero) h p = absurd (omega (arith, p.0))
no_entry (suc (suc t)) h p = absurd (omega arith)

find_file-missing_example :
    (m' : Mem) × (find_file disk 14 0x10000 volume 14 0x1010 0 0x10620 0x1001 0x10634 machine
      ≡ ok (0x10634, m'))
    × (read32 m' 0x10634 ≡ 1)
    × (read32 m' (0x10634 + 4) ≡ 0)
    × (read32 m' (0x10634 + 8) ≡ 0)
find_file-missing_example =
    find_file-missing disk 14 0x10000 0x12000 volume 0x1010 0x10620 0x1001 0x10634 4 2 6584 kinds
      block_sizes machine missing-Searched no_entry (omega arith) (omega arith) (omega arith)
      (omega arith)

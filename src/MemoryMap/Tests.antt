-- ===== src/MemoryMap/Tests.antt =====
-- A map of one region of 1 MiB, of type 1, as the BIOS writes it and as the struct would have it.
use rainbow_os.Prelude.{
  ℕ, ◌+◌, ◌*◌, ◌/◌, ◌%◌, ◌^◌, ◌≤◌, ◌<◌, ◌≡◌, refl, ◌||◌, [], arith, ◌==◌, if◌then◌else◌, ok,
}
use rainbow_os.Memory.{Mem, read32, read64}
use rainbow_os.MemoryMap.{Int15, eax_signature, get_upper_memory_size}
use rainbow_os.MemoryMap.Collect.{Regions, ListsRegions, recorded}
use rainbow_os.MemoryMap.Total.{Region, get_upper_memory_size_misplaced}
use rainbow_os.Heap.{get_next, get_reserved}
use rainbow_os.Heap.Blocks.{Chain}
use rainbow_os.Heap.Bump.{bump}
use rainbow_os.MemoryMap.{query_upper_memory}
use rainbow_os.MemoryMap.Query.{struct, Mapped, query_upper_memory-Mapped}

-- The struct at 256 counts one entry, at 512.
abbrev with_entry : Mem → Mem
with_entry entry x = if x == 256 then 1 else if x == 261 then 2 else entry x

abbrev as_written : Mem
as_written = with_entry (λ x. if x == 522 then 16 else if x == 528 then 1 else 0)

as_written_count : 1 ≤ read32 as_written 256
unfolding read32
as_written_count = omega arith

as_written-Region : Region as_written (read32 as_written 260) 0 0x100000 1
unfolding read32 read64
as_written-Region = (refl, refl, refl)

get_upper_memory_size_misplaced_example : get_upper_memory_size as_written 256 ≡ 0
get_upper_memory_size_misplaced_example =
    get_upper_memory_size_misplaced as_written 256 0 0x100000 1 (λ x. ground arith) as_written_count
      (omega arith) as_written-Region

abbrev two_regions : Regions
two_regions k j = if j == 16 then 1 else if j == 10 then (k + 1) % 2 ^ 8 else 0

-- The continuation value is the offset of the record in the table of the BIOS.
abbrev table_offset : ℕ → ℕ
table_offset k = 20 * k

abbrev bios : Int15
bios offset segment ebx m =
    let k = ebx / 20 in
    (
      record {
        ebx = if k + 1 == 2 then 0 else table_offset (k + 1);
        eax = eax_signature;
        ecx = 20;
        carry = 0;
      },
      recorded two_regions k (segment * 16 + offset) m,
    )

bios-ListsRegions : ListsRegions two_regions table_offset 2 bios
bios-ListsRegions = record {
  begins = refl;
  continues = λ k lo hi. omega arith;
  answers = λ o s k m h. let here : 20 * k / 20 ≡ k = omega arith in rw here refl;
}

-- A heap of one free block from 0x10000 to 0x12000.
abbrev fresh_heap : Mem
fresh_heap x = if x == 0x10001 then 0x20 else if x == 0x10002 || x == 0x12004 then 1 else 0

fresh_heap-Chain : Chain fresh_heap 0x12000 0x10000 (bump [] 8184)
unfolding get_next get_reserved read32
fresh_heap-Chain = (refl, refl, (refl, omega arith, refl, refl))

two_regions-bytes : (k j : ℕ) → two_regions k j < 2 ^ 8
two_regions-bytes k j = ground arith

query_upper_memory-Mapped_example :
    (m' : Mem) × (query_upper_memory 2 3 bios 0x10000 fresh_heap
      ≡ ok (struct two_regions 2 0x10000 0x12000 8184 [] fresh_heap, m'))
    × Mapped two_regions 2 0x10000 0x12000 8184 [] fresh_heap m'
query_upper_memory-Mapped_example =
    query_upper_memory-Mapped two_regions 2 0x10000 0x12000 8184 [] fresh_heap table_offset bios
      bios-ListsRegions two_regions-bytes (omega arith) (omega arith) 2 3 (omega arith)
      (omega arith) fresh_heap-Chain (λ x. ground arith) (omega arith) (omega arith)

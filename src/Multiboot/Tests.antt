-- ===== src/Multiboot/Tests.antt =====
-- A file at 64 KiB with a header at its start, and one without.
use rainbow_os.Prelude.{
  ℕ, ◌+◌, ◌*◌, ◌/◌, ◌%◌, ◌^◌, ◌≡◌, refl, inl, true, false, ◌||◌, [], ◌∷◌, arith, ◌==◌,
  if◌then◌else◌, ok, out_of_fuel,
}
use rainbow_os.Memory.{Mem, read32}
use rainbow_os.Multiboot.{magic, flags, checksum, is_header, multiboot_header_search}
use rainbow_os.Multiboot.Search.{multiboot_header_search-first, multiboot_header_search_endless}
use rainbow_os.Heap.{get_next, get_reserved}
use rainbow_os.MemoryMap.{Int12, Int15, eax_signature}
use rainbow_os.MemoryMap.Collect.{Regions, ListsRegions, recorded}
use rainbow_os.Multiboot.{unsupported, build_multiboot_info}
use rainbow_os.Multiboot.Info.{Answers, Asks, Informs, build_multiboot_info-Informs}

abbrev zeros : Mem
zeros x = 0

-- The magic number, no flags and the checksum.
abbrev header_bytes : Mem
header_bytes x =
    if x == 65536
    then 0x02
    else if x == 65537
    then 0xb0
    else if x == 65538
    then 0xad
    else if x == 65539
    then 0x1b
    else if x == 65544
    then 0xfe
    else if x == 65545
    then 0x4f
    else if x == 65546
    then 0x52
    else if x == 65547
    then 0xe4
    else 0

header_bytes_lem : is_header header_bytes (65536 + 4 * 0) ≡ true
unfolding is_header magic flags checksum read32
header_bytes_lem = refl

zeros_lem : (a : ℕ) → is_header zeros a ≡ false
unfolding is_header magic flags checksum read32
zeros_lem a = refl

multiboot_header_search-first_example :
    multiboot_header_search 1 65536 20000 header_bytes ≡ ok (65536 + 4 * 0)
multiboot_header_search-first_example =
    multiboot_header_search-first 1 65536 20000 0 header_bytes (omega arith) (omega arith)
      (omega arith) header_bytes_lem (λ j h. absurd (omega arith))

multiboot_header_search_endless_example :
    multiboot_header_search 100000 65536 512 zeros ≡ out_of_fuel
multiboot_header_search_endless_example =
    multiboot_header_search_endless 100000 65536 512 zeros (omega arith) (omega arith) (omega arith)
      (λ j h. zeros_lem (65536 + 4 * j))

-- Two regions, and 639 KiB of lower memory.
abbrev two_regions : Regions
two_regions k j = if j == 16 then 1 else if j == 10 then (k + 1) % 2 ^ 8 else 0

-- The continuation value is the offset of the record in the table of the BIOS.
abbrev table_offset : ℕ → ℕ
table_offset k = 20 * k

abbrev lists_two : Int15
lists_two offset segment ebx m =
    let k = ebx / 20 in
    (
      record {
        ebx = if k + 1 == 2 then 0 else table_offset (k + 1);
        eax = eax_signature;
        ecx = 20;
        carry = 0;
      },
      recorded two_regions k (segment * 16 + offset) m,
    )

lists_two-ListsRegions : ListsRegions two_regions table_offset 2 lists_two
lists_two-ListsRegions = record {
  begins = refl;
  continues = λ k lo hi. omega arith;
  answers = λ o s k m h. let here : 20 * k / 20 ≡ k = omega arith in rw here refl;
}

abbrev lower_639 : Int12
lower_639 m = (639, m)

bios-Answers : Answers two_regions table_offset 2 639 lower_639 lists_two
bios-Answers = record {
  lists = lists_two-ListsRegions;
  records = λ k j. ground arith;
  any = omega arith;
  typed = omega arith;
  most = omega arith;
  gives = λ q. refl;
  lower_any = omega arith;
  lower_fits = omega arith;
}

-- A heap from 0x10000 to 0x12000 with a header of 12 bytes that has the flag bits 0 and 1 set.
abbrev heap_with_header : Mem
heap_with_header x =
    if x == 0x10000
    then 0x14
    else if x == 0x10002 || x == 0x10004 || x == 0x10016 || x == 0x12004
    then 1
    else if x == 0x10015
    then 0x20
    else if x == 0x1000c
    then 3
    else 0

heap_with_header-Asks :
    Asks two_regions table_offset 2 639 lower_639 lists_two bios-Answers 0x10000 0x12000 8164
      0x10008 128
      (12 ∷ [])
      heap_with_header
unfolding get_next get_reserved read32 flags unsupported
heap_with_header-Asks = record {
  chain = (refl, refl, (refl, refl, (refl, omega arith, refl, refl)));
  bytes = λ x. ground arith;
  high = omega arith;
  fits = omega arith;
  in_heap = λ x lo hi. inl (refl, lo, omega arith);
  memory = refl;
  supported = refl;
  device_fits = omega arith;
}

build_multiboot_info-Informs_example :
    (m' : Mem) × (build_multiboot_info 2 5 lower_639 lists_two 0x10000 0x10008 128 heap_with_header
      ≡ ok (0x1001c, m'))
    × Informs two_regions table_offset 2 639 lower_639 lists_two bios-Answers 0x10000 0x12000 8164
        0x10008 128
        (12 ∷ [])
        heap_with_header
        m'
build_multiboot_info-Informs_example =
    build_multiboot_info-Informs two_regions table_offset 2 639 lower_639 lists_two bios-Answers
      0x10000 0x12000 8164 0x10008 128 (12 ∷ []) heap_with_header 2 5 (omega arith) (omega arith)
      heap_with_header-Asks

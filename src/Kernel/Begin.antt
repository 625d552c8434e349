-- ===== src/Kernel/Begin.antt =====
-- kmain before the test for `cpuid`: the cursor, the header and the heap.
use rainbow_os.Prelude.{
  ℕ, ◌+◌, ◌*◌, ◌/◌, ◌^◌, ◌≤◌, ◌<◌, ◌≡◌, refl, ◌∙◌, ◌⊎◌, inl, inr, false, [], ◌∷◌, arith, ◌==◌,
  Bool-cases, u8, sub32, ok,
}
use rainbow_os.Memory.{Mem, IsBytes, SameOutside}
use rainbow_os.Terminal.{light_grey, blue, black, Terminal, framebuffer_terminal, set_cursor, clear}
use rainbow_os.Terminal.Cells.{clear_lem}
use rainbow_os.Terminal.Cursor.{OnScreen, set_cursor-OnScreen}
use rainbow_os.Terminal.Bytes.{clear-IsBytes}
use rainbow_os.OutStream.{text, num, ◌<<◌, recolor, Console, OutStream, hex, clear_stream, init}
use rainbow_os.OutStream.Screen.{
  Good, Good-memory, Shows, Displays, text-Displays, Displays-join, recolor-Shows,
}
use rainbow_os.OutStream.Number.{num-Displays}
use rainbow_os.Heap.{heap_initialize}
use rainbow_os.Heap.Blocks.{block, Chain}
use rainbow_os.Heap.Initialize.{heap_initialize-eq}
use rainbow_os.OutStream.Number.{num-Displays}
use rainbow_os.OutStream.Screen.{Displays, text-Displays, Displays-join, recolor-Shows}
use rainbow_os.Heap.{heap_initialize}
use rainbow_os.Heap.Blocks.{block, Chain}
use rainbow_os.Heap.Initialize.{heap_initialize-eq, heap_initialize-IsBytes}
use rainbow_os.Kernel.{Image, kmain_begin, multiboot_custom_bootloader_magic, place_cursor}

-- The cursor that the bootloader hands over as the index of its cell is the kernel's: when the flag is
-- the custom bootloader's, the row and the column are those of any terminal with its cursor on the
-- screen from which the index was computed, and the memory stays.
pub place_cursor-OnScreen :
    (t : Terminal) (out : OutStream) (m : Mem)
    → OnScreen t
    → let (out', m') =
        place_cursor multiboot_custom_bootloader_magic (t.row * 80 + t.column) (out, m) in
      (out'.back_end.row ≡ t.row) × (out'.back_end.column ≡ t.column) × (m' ≡ m)
unfolding place_cursor set_cursor
place_cursor-OnScreen t out m v = ground arith

place_cursor-Shows :
    (buffer stack flag index : ℕ) (c : Console)
    → Good buffer c
    → Shows buffer stack c (place_cursor flag index c)
unfolding place_cursor clear_stream
place_cursor-Shows buffer stack flag index (out, m) g =
    let t = out.back_end in
    let row = u8 (index / 80) in
    let column = u8 (sub32 index (row * 80)) in
    let (cursor, buffer_kept) = set_cursor-OnScreen row column t g.cursor in
    let placed : Shows buffer stack (out, m)
        (record out { back_end = (set_cursor row column t).1 }, m) =
      record {
        good = record {
          cursor = cursor;
          at_buffer = buffer_kept ∙ g.at_buffer;
          base_low = g.base_low;
          base_high = g.base_high;
          bytes = g.bytes;
        };
        base_kept = refl;
        same = λ x o p. refl;
      } in
    let cleared : Shows buffer stack (out, m) (out, clear t m) = record {
      good = Good-memory buffer out m (clear t m) g (clear-IsBytes t m g.bytes);
      base_kept = refl;
      same = λ x o p. (clear_lem t m).1 x (omega (arith, g.at_buffer));
    } in
    elim (Bool-cases (flag == multiboot_custom_bootloader_magic)) [
      | inl custom ↦ rw custom placed
      | inr other ↦ rw other cleared
    ]

-- The terminal as the constructor leaves it, behind a stream in base 16, is in order.
start-Good : (m : Mem) → IsBytes m → Good 0xb8000 (hex (init framebuffer_terminal), m)
unfolding hex init framebuffer_terminal
start-Good m b = record {
  cursor = record { row_in = omega arith; column_in = omega arith };
  at_buffer = refl;
  base_low = omega arith;
  base_high = omega arith;
  bytes = b;
}

heap_report-Displays :
    (stack : ℕ)
    → (stack + 33 ≤ 0xb8000) ⊎ (0xb8000 + 4000 ≤ stack)
    → (end : ℕ) → end < 2 ^ 32
    → Displays 0xb8000 stack
        (text "Creating a temporary heap at 0x" << num stack end << text " of size 4k\n")
heap_report-Displays stack apart end h =
    Displays-join 0xb8000 stack _ _
      (Displays-join 0xb8000 stack _ _ (text-Displays 0xb8000 stack _)
        (num-Displays 0xb8000 stack apart end h))
      (text-Displays 0xb8000 stack _)

-- The heap of 4 KiB that is laid over the end of the kernel.
abbrev HeapAt : ℕ → Mem → Mem → Type 0
HeapAt end m m' =
    Chain m' (end + 4088) end (block 4080 false ∷ []) × SameOutside end 4096 m m' × IsBytes m'

heap_initialize-HeapAt :
    (end : ℕ) (m : Mem)
    → IsBytes m
    → end + 4096 < 2 ^ 32
    → HeapAt end m (heap_initialize end 4096 m).2
heap_initialize-HeapAt end m b top =
    let (start, chain, same) =
      heap_initialize-eq end (end + 4088) 4096 m (omega arith) top (omega arith) in
    (chain, same, heap_initialize-IsBytes end 4096 m b)

module _ (image : Image) (m : Mem) (bytes : IsBytes m) (top : image.end_symbol + 4096 < 2 ^ 32)
    (apart : (image.stack + 33 ≤ 0xb8000) ⊎ (0xb8000 + 4000 ≤ image.stack)) where
  -- Whoever loaded the kernel, and whatever index it handed over, kmain gets to the test for `cpuid`
  -- with the cursor on the screen and a heap of one free block of 4080 bytes at the end of the
  -- kernel. Nothing else is written but the screen and the array of the number. The memory holds
  -- bytes, the heap does not reach past the address space, and the array lies away from the screen.
  pub kmain_begin-Chain :
      (multiboot_flag terminal_index : ℕ)
      → (c : Console) × (kmain_begin image multiboot_flag terminal_index m ≡ ok c)
        × Good 0xb8000 c
        × Chain c.1 (image.end_symbol + 4088) image.end_symbol (block 4080 false ∷ [])
        × ((x : ℕ)
            → (x < 0xb8000) ⊎ (0xb8000 + 4000 ≤ x)
            → (x < image.stack) ⊎ (image.stack + 33 ≤ x)
            → (x < image.end_symbol) ⊎ (image.end_symbol + 4096 ≤ x)
            → c.1 x ≡ m x)
  unfolding kmain_begin
  kmain_begin-Chain multiboot_flag terminal_index =
      let end = image.end_symbol in
      let stack = image.stack in
      let a : Console = (hex (init framebuffer_terminal), m) in
      let b = place_cursor multiboot_flag terminal_index a in
      let placed =
        place_cursor-Shows 0xb8000 stack multiboot_flag terminal_index a (start-Good m bytes) in
      let colored = recolor-Shows 0xb8000 stack light_grey blue b placed.good in
      let (d, e1, header) =
        text-Displays 0xb8000 stack "Entering RainbowOS 32-bit protected mode kernel.bin\n"
          (recolor light_grey blue b) colored.good in
      let plain = recolor-Shows 0xb8000 stack light_grey black d header.good in
      let ((out, m'), e2, told) =
        heap_report-Displays stack apart end (omega arith) (recolor light_grey black d)
          plain.good in
      let (chain, same, b') = heap_initialize-HeapAt end m' told.good.bytes top in
      (
        (out, (heap_initialize end 4096 m').2),
        rw (e1, e2) refl,
        Good-memory 0xb8000 out m' (heap_initialize end 4096 m').2 told.good b',
        chain,
        λ x o p q.
            same x q
            ∙ told.same x o p
            ∙ plain.same x o p
            ∙ header.same x o p
            ∙ colored.same x o p
            ∙ placed.same x o p,
      )

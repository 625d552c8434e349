-- ===== src/Stage1/Begin.antt =====
-- _stage1Main up to the heap, and the cursor that it starts with.
use rainbow_os.Prelude.{
  ℕ, ◌+◌, ◌-◌, ◌*◌, ◌/◌, ◌%◌, ◌^◌, ◌≤◌, ◌<◌, ◌≡◌, ap, ◌∙◌, ◌⊎◌, false, [], ◌∷◌, arith, ltb,
  if◌then◌else◌, u8, sub32, ok,
}
use rainbow_os.Memory.{Mem, IsBytes, SameOutside}
use rainbow_os.Terminal.{Terminal, light_grey, blue, black, framebuffer_terminal, set_cursor}
use rainbow_os.Terminal.Cursor.{OnScreen, set_cursor-OnScreen}
use rainbow_os.OutStream.{OutStream, Console, hex, recolor}
use rainbow_os.OutStream.Screen.{Good, Good-memory, text-Displays, recolor-Shows}
use rainbow_os.Heap.{heap_initialize}
use rainbow_os.Heap.Blocks.{block, Chain}
use rainbow_os.Heap.Initialize.{heap_initialize-eq, heap_initialize-IsBytes}
use rainbow_os.Stage1.{start_terminal, stage1_begin}
use rainbow_os.OutStream

-- The cursor that stage 1 starts with is at the start of a row, whatever column the word holds: the row
-- is the second byte of the word if that is below 25, and the first row otherwise.
pub start_terminal-row :
    (cursor : ℕ)
    → let t = start_terminal cursor in
      (t.column ≡ 0)
      × (t.row ≡ (if ltb (cursor / 2 ^ 8 % 2 ^ 8) 25 then cursor / 2 ^ 8 % 2 ^ 8 else 0))
unfolding start_terminal set_cursor framebuffer_terminal
start_terminal-row cursor = ground arith

start-OnScreen :
    (cursor : ℕ)
    → OnScreen (start_terminal cursor) × (Terminal.buffer (start_terminal cursor) ≡ 0xb8000)
unfolding start_terminal framebuffer_terminal
start-OnScreen cursor =
    set_cursor-OnScreen (u8 (cursor / 2 ^ 8)) (u8 (cursor / 2 ^ 8 % 2 ^ 8 * 2 ^ 8))
      framebuffer_terminal (record { row_in = omega arith; column_in = omega arith })

start-Good :
    (cursor : ℕ) (m : Mem)
    → IsBytes m
    → Good 0xb8000 (hex (OutStream.init (start_terminal cursor)), m)
unfolding hex OutStream.init
start-Good cursor m b =
    let (cursor_in, buffer_at) = start-OnScreen cursor in
    record {
      cursor = record { row_in = cursor_in.row_in; column_in = cursor_in.column_in };
      at_buffer = buffer_at;
      base_low = omega arith;
      base_high = omega arith;
      bytes = b;
    }

-- The heap between the end of stage 1 and the low buffer of the disk.
abbrev HeapFrom : ℕ → ℕ × ℕ × Mem → Mem → Type 0
HeapFrom stop (heap, heap_end, m') m =
    (heap ≡ stop)
    × Chain m' 0x6FFF8 stop (block (0x70000 - stop - 16) false ∷ [])
    × SameOutside stop (0x70000 - stop) m m'
    × IsBytes m'

heap_initialize-HeapFrom :
    (stop : ℕ) (m : Mem)
    → IsBytes m
    → stop + 16 ≤ 0x70000
    → HeapFrom stop (heap_initialize stop (sub32 0x70000 stop) m) m
heap_initialize-HeapFrom stop m b low =
    let size : sub32 0x70000 stop ≡ 0x70000 - stop = omega arith in
    let (start, chain, same) =
      heap_initialize-eq stop 0x6FFF8 (0x70000 - stop) m (omega arith) (omega arith)
        (omega arith) in
    rw size (start, chain, same, heap_initialize-IsBytes stop (0x70000 - stop) m b)

-- _stage1Main gets to reading the disk with its cursor on the screen and a heap of one free block, from
-- the end of stage 1 to the buffer at 0x70000; nothing else is written but the screen. The memory
-- holds bytes, and stage 1 ends 16 bytes before the buffer, or more.
pub stage1_begin-Chain :
    (stop_stage1 cursor : ℕ) (m : Mem)
    → IsBytes m
    → stop_stage1 + 16 ≤ 0x70000
    → (c : Console) × (stage1_begin stop_stage1 cursor m ≡ ok (stop_stage1, c))
      × Good 0xb8000 c
      × Chain c.1 0x6FFF8 stop_stage1 (block (0x70000 - stop_stage1 - 16) false ∷ [])
      × ((x : ℕ)
          → (x < 0xb8000) ⊎ (0xb8000 + 4000 ≤ x)
          → (x < stop_stage1) ⊎ (0x70000 ≤ x)
          → c.1 x ≡ m x)
unfolding stage1_begin
stage1_begin-Chain stop_stage1 cursor m b low =
    let a : Console = (hex (OutStream.init (start_terminal cursor)), m) in
    let colored = recolor-Shows 0xb8000 0xb8000 light_grey blue a (start-Good cursor m b) in
    let (d, e, header) =
      text-Displays 0xb8000 0xb8000 "Welcome to RainbowOS 32-bit protected mode bootloader!\n"
        (recolor light_grey blue a) colored.good in
    let plain = recolor-Shows 0xb8000 0xb8000 light_grey black d header.good in
    let (out, m1) = recolor light_grey black d in
    let (heap, chain, same, b1) = heap_initialize-HeapFrom stop_stage1 m1 plain.good.bytes low in
    let m2 = (heap_initialize stop_stage1 (sub32 0x70000 stop_stage1) m1).2 in
    (
      (out, m2),
      rw e (ap (λ (h : ℕ). ok (h, (out, m2))) heap),
      Good-memory 0xb8000 out m1 m2 plain.good b1,
      chain,
      λ x o p.
          same x (omega arith)
          ∙ plain.same x o (omega arith)
          ∙ header.same x o (omega arith)
          ∙ colored.same x o (omega arith),
    )

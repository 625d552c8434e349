-- ===== src/Stage1/Tests.antt =====
-- Stage 1 that ends at 64 KiB, with the cursor in row 3 and column 5.
use rainbow_os.Prelude.{
  ℕ, ◌+◌, ◌-◌, ◌/◌, ◌%◌, ◌^◌, ◌≤◌, ◌<◌, ◌≡◌, ◌⊎◌, false, [], ◌∷◌, arith, ltb, if◌then◌else◌, ok,
}
use rainbow_os.Memory.{Mem}
use rainbow_os.OutStream.{Console}
use rainbow_os.OutStream.Screen.{Good}
use rainbow_os.Heap.Blocks.{block, Chain}
use rainbow_os.Stage1.{start_terminal, stage1_begin}
use rainbow_os.Stage1.Begin.{start_terminal-row, stage1_begin-Chain}

abbrev zeros : Mem
zeros x = 0

start_terminal-row_example :
    let t = start_terminal 0x305 in
    (t.column ≡ 0) × (t.row ≡ (if ltb (0x305 / 2 ^ 8 % 2 ^ 8) 25 then 0x305 / 2 ^ 8 % 2 ^ 8 else 0))
start_terminal-row_example = start_terminal-row 0x305

stage1_begin-Chain_example :
    (c : Console) × (stage1_begin 0x10000 0x305 zeros ≡ ok (0x10000, c))
    × Good 0xb8000 c
    × Chain c.1 0x6FFF8 0x10000 (block (0x70000 - 0x10000 - 16) false ∷ [])
    × ((x : ℕ)
        → (x < 0xb8000) ⊎ (0xb8000 + 4000 ≤ x)
        → (x < 0x10000) ⊎ (0x70000 ≤ x)
        → c.1 x ≡ zeros x)
stage1_begin-Chain_example = stage1_begin-Chain 0x10000 0x305 zeros (λ x. omega arith) (omega arith)

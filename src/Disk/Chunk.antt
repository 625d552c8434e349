-- ===== src/Disk/Chunk.antt =====
-- One round of diskRead16.
use rainbow_os.Prelude.{
  ℕ, ◌+◌, ◌-◌, ◌*◌, ◌/◌, ◌%◌, ◌^◌, ◌≤◌, ◌<◌, ◌≡◌, ap, ◌∙◌, Bool, true, false, ◌||◌, arith, ok,
}
use rainbow_os.Memory.{Mem, IsBytes, inside}
use native.Mathlib.Decide.{dec_lt}
use rainbow_os.Str.{memmove}
use rainbow_os.Str.Copy.{memmove-copied}
use rainbow_os.Disk.{Int13, dap, read_buffer, fill_dap, read_chunk}
use rainbow_os.Disk.Packet.{
  packet_count, packet_buffer, Sectors, IsDisk, loaded, ReadsPackets, fill_dap_lem,
  fill_dap-IsBytes,
}

-- The addresses that reading clobbers on the way: the packet and the low buffer.
abbrev pub scratch : ℕ → Bool
scratch x = inside dap 16 x || inside read_buffer 65024 x

-- The `n` sectors from `lba` on are in the buffer, and nothing else changed but the scratch.
abbrev pub Loads : Sectors → ℕ → ℕ → ℕ → Mem → Mem → Type 0
Loads sector lba buffer n m m' =
    ((x : ℕ)
      → inside buffer (n * 512) x ≡ true
      → m' x ≡ sector (lba + (x - buffer) / 512) ((x - buffer) % 512))
    × ((x : ℕ) → inside buffer (n * 512) x ≡ false → scratch x ≡ false → m' x ≡ m x)

module _ (sector : Sectors) (disk : ℕ) (int13 : Int13) (is : IsDisk sector)
    (reads : ReadsPackets sector disk int13) where
  loaded-IsBytes : (lba n : ℕ) (m : Mem) → IsBytes m → IsBytes (loaded sector lba read_buffer n m)
  loaded-IsBytes lba n m b x =
      ground (arith, b x, is (lba + (x - read_buffer) / 512) ((x - read_buffer) % 512))

  asks :
      (lba n : ℕ) (m : Mem)
      → lba < 2 ^ 32
      → 1 ≤ n
      → n ≤ 127
      → int13 disk (fill_dap lba n m) ≡ (0, loaded sector lba read_buffer n (fill_dap lba n m))
  asks lba n m h one most =
      let (size, count, buffer, start, _) = fill_dap_lem lba n m h (omega arith) in
      let e = reads (fill_dap lba n m) size (rw count one) (rw count most) in
      let m1 = fill_dap lba n m in
      e
      ∙ ap {B = ℕ × Mem} (λ (l : ℕ). (0, loaded sector l (packet_buffer m1) (packet_count m1) m1))
          start
      ∙ ap {B = ℕ × Mem} (λ (q : ℕ). (0, loaded sector lba q (packet_count m1) m1)) buffer
      ∙ ap {B = ℕ × Mem} (λ (k : ℕ). (0, loaded sector lba read_buffer k m1)) count

  -- The byte of the low buffer that lies `d` bytes behind its start.
  loaded-low :
      (lba n d : ℕ) (m : Mem)
      → d < n * 512
      → loaded sector lba read_buffer n m (read_buffer + d) ≡ sector (lba + d / 512) (d % 512)
  loaded-low lba n d m h =
      let e : read_buffer + d - read_buffer ≡ d = omega arith in
      ground (arith, ap (λ (k : ℕ). sector (lba + k / 512) (k % 512)) e)

  pub read_chunk-Loads :
      (lba buffer n : ℕ) (m : Mem)
      → IsBytes m
      → lba < 2 ^ 32
      → 1 ≤ n
      → n ≤ 127
      → (m' : Mem) × (read_chunk int13 lba buffer n disk m ≡ ok m')
        × Loads sector lba buffer n m m'
        × IsBytes m'
  unfolding read_chunk
  read_chunk-Loads lba buffer n m b h one most =
      let m1 = fill_dap lba n m in
      let m2 = loaded sector lba read_buffer n m1 in
      let b2 = loaded-IsBytes lba n m1 (fill_dap-IsBytes lba n m b) in
      let same = fill_dap_lem lba n m h (omega arith) in
      let moved = memmove-copied buffer read_buffer (n * 512) m2 b2 in
      (
        memmove buffer read_buffer (n * 512) m2,
        rw (asks lba n m h one most),
        (
          λ x i. ground (arith, moved x, loaded-low lba n (x - buffer) m1),
          λ x o s. ground (arith, moved x, same.4 x),
        ),
        λ x. ground (arith, moved x, b2 x, b2 (read_buffer + (x - buffer))),
      )

-- Two reads one behind the other, into buffers one behind the other, are one read.
pub Loads-join :
    (sector : Sectors) (lba buffer k : ℕ) (m m1 m' : Mem)
    → ((x : ℕ) → inside buffer ((127 + k) * 512) x ≡ true → scratch x ≡ false)
    → Loads sector lba buffer 127 m m1
    → Loads sector (lba + 127) (buffer + 65024) k m1 m'
    → Loads sector lba buffer (127 + k) m m'
Loads-join sector lba buffer k m m1 m' apart first second =
    (λ x i. within x i, λ x o s. ground (arith, first.1 x, second.1 x))
  where
    shift :
        (x : ℕ)
        → buffer + 65024 ≤ x
        → sector (lba + 127 + (x - (buffer + 65024)) / 512) ((x - (buffer + 65024)) % 512)
          ≡ sector (lba + (x - buffer) / 512) ((x - buffer) % 512)
    shift x h =
        let p : lba + 127 + (x - (buffer + 65024)) / 512 ≡ lba + (x - buffer) / 512 = omega arith in
        let q : (x - (buffer + 65024)) % 512 ≡ (x - buffer) % 512 = omega arith in rw (p, q)

    within :
        (x : ℕ)
        → inside buffer ((127 + k) * 512) x ≡ true
        → m' x ≡ sector (lba + (x - buffer) / 512) ((x - buffer) % 512)
    within x i = elim (dec_lt x (buffer + 65024)) [
      | yes low ↦ ground (arith, apart x i, first.0 x, second.1 x)
      | no high ↦ second.0 x (ground arith) ∙ shift x (omega arith)
    ]

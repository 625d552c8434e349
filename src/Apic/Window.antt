-- ===== src/Apic/Window.antt =====
-- The registers of the I/O APIC, through the select register and the window.
use rainbow_os.Prelude.{refl, ◌≡◌, if◌then◌else◌, ◌==◌, ℕ, ◌+◌, ◌%◌, ◌^◌, ap, ◌∙◌, arith}
use rainbow_os.Memory.{Mem}
use rainbow_os.Apic.{
  Mmio, IoApic, IoApicRegister, id, version, arbitration, redirection, register_code,
  io_apic_address, read, write,
}

-- The device at `base`: a word stored there selects a register by its low byte, and the word 16 bytes
-- on is the selected register.
pub record IndexedRegisters (bus : Mmio) (base : ℕ) : Type 0 where
  pub selected : bus.Device → ℕ
  pub register : bus.Device → ℕ → ℕ
  pub select_index : (v : ℕ) (d : bus.Device) → selected (bus.store base v d) ≡ v % 2 ^ 8
  pub select_keeps : (v k : ℕ) (d : bus.Device) → register (bus.store base v d) k ≡ register d k
  pub window_value : (d : bus.Device) → (bus.load (base + 16) d).0 ≡ register d (selected d)
  pub window_keeps : (k : ℕ) (d : bus.Device) → register (bus.load (base + 16) d).1 k ≡ register d k
  pub window_store :
      (v k : ℕ) (d : bus.Device)
      → register (bus.store (base + 16) v d) k ≡ (if k == selected d then v else register d k)

module _ (bus : Mmio) (m : Mem) (apic : IoApic)
    (device : IndexedRegisters bus (io_apic_address m apic)) where
  read_value :
      (reg : IoApicRegister) (d : bus.Device)
      → (read bus m apic reg d).0 ≡ device.register d (register_code reg % 2 ^ 8)
  unfolding read
  read_value reg d =
      let base = io_apic_address m apic in
      let selected = bus.store base (register_code reg % 2 ^ 8) d in
      device.window_value selected
      ∙ device.select_keeps (register_code reg % 2 ^ 8) (device.selected selected) d
      ∙ ap (λ (k : ℕ). device.register d k)
          (device.select_index (register_code reg % 2 ^ 8) d ∙ omega arith)

  write_register :
      (reg : IoApicRegister) (v k : ℕ) (d : bus.Device)
      → device.register (write bus m apic reg v d) k
        ≡ (if k == register_code reg % 2 ^ 8 then v else device.register d k)
  unfolding write
  write_register reg v k d =
      let base = io_apic_address m apic in
      let selected = bus.store base (register_code reg % 2 ^ 8) d in
      let at : device.selected selected ≡ register_code reg % 2 ^ 8 =
        device.select_index (register_code reg % 2 ^ 8) d ∙ omega arith in
      device.window_store v k selected ∙ rw (at, device.select_keeps _ k d)

  code_fits : (r : IoApicRegister) → register_code r % 2 ^ 8 ≡ register_code r
  unfolding register_code
  code_fits id = refl
  code_fits version = refl
  code_fits arbitration = refl
  code_fits redirection = refl

  -- On such a device, reading a register of the I/O APIC after writing one gives the value written if
  -- they are the same register, and else what reading it would have given before.
  pub read-write :
      (r s : IoApicRegister) (v : ℕ) (d : bus.Device)
      → (read bus m apic s (write bus m apic r v d)).0
        ≡ (if register_code s == register_code r then v else (read bus m apic s d).0)
  read-write r s v d =
      read_value s (write bus m apic r v d)
      ∙ write_register r v (register_code s % 2 ^ 8) d
      ∙ rw (read_value s d, code_fits s, code_fits r)

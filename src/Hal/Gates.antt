-- ===== src/Hal/Gates.antt =====
-- src/kernel/HAL/x86_common/idt.c and src/kernel/inc/HAL/x86_64/hw_structs.h: the table of the interrupt
-- gates. `stub` gives the address of each entry point, which is assembler code. The commands to the
-- interrupt controllers and the loading of the table are not modelled.
pub mod Table
use Prim.Native.Nat.{bit_or}
use lizarx.Prelude.{ℕ, zero, suc, ◌+◌, ◌/◌, ◌%◌, ◌^◌, List, [], ◌∷◌, set}

-- `struct idt_entry`
pub record IdtEntry : Type 0 where
  pub isr_offset : ℕ
  pub selector : ℕ
  pub ist : ℕ
  pub flags : ℕ
  pub isr_offset2 : ℕ

-- GDT_KERNEL_CODE_SEGMENT, and IDT_FLAG_INTERRUPT_GATE | IDT_FLAG_PRESENT with a ring.
abbrev pub gdt_kernel_code_segment : ℕ
gdt_kernel_code_segment = 0x8

abbrev pub gate_flags : ℕ → ℕ
gate_flags ring = bit_or (bit_or 0xe ring) 0x80

abbrev pub idt_flag_ring0 : ℕ
idt_flag_ring0 = 0x00

abbrev pub idt_flag_ring3 : ℕ
idt_flag_ring3 = 0x60

-- The entry that `idt_set_entry` writes.
abbrev pub gate : ℕ → ℕ → ℕ → IdtEntry
gate handler selector flags = record {
  isr_offset = handler % 2 ^ 16;
  selector = selector % 2 ^ 16;
  ist = 0;
  flags = bit_or flags 0x8 % 2 ^ 8;
  isr_offset2 = handler / 2 ^ 16 % 2 ^ 48;
}

-- `idt_set_entry`
unfoldable pub idt_set_entry : ℕ → ℕ → ℕ → ℕ → (ℕ → IdtEntry) → ℕ → IdtEntry
idt_set_entry i handler selector flags idt = set idt i (gate handler selector flags)

module _ (stub : ℕ → ℕ) where
  -- Some calls of `idt_set_entry` for ring 0 in a row.
  unfoldable pub set_gates : List ℕ → (ℕ → IdtEntry) → ℕ → IdtEntry
  unfolding idt_set_entry
  set_gates [] idt = idt
  set_gates (i ∷ is) idt =
      set_gates is
        (idt_set_entry i (stub i) gdt_kernel_code_segment (gate_flags idt_flag_ring0) idt)

  -- The interrupts that `init_idt` sets, but for that of the system calls.
  abbrev pub interrupts : List ℕ
  interrupts =
      0 ∷ 1 ∷ 2 ∷ 3 ∷ 4 ∷ 5 ∷ 6 ∷ 7 ∷ 8 ∷ 9 ∷ 10 ∷ 11 ∷ 12 ∷ 13 ∷ 14 ∷ 15 ∷ 16 ∷ 17 ∷ 18 ∷ 28 ∷ 30
      ∷ 31 ∷ 32 ∷ 33 ∷ []

  -- `init_idt` on a table.
  unfoldable pub init_idt : (ℕ → IdtEntry) → ℕ → IdtEntry
  unfolding set_gates idt_set_entry
  init_idt idt =
      idt_set_entry 48 (stub 48) gdt_kernel_code_segment (gate_flags idt_flag_ring3)
        (set_gates interrupts idt)

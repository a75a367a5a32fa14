-- ===== src/Hal/Tests.antt =====
-- Examples of src/kernel/HAL/x86_common/gdt.c at concrete values.
use lizarx.Prelude.{ℕ, ◌≡◌, refl}
use lizarx.Hal.Descriptors.{GdtEntry, gdt_set_entry, base_of, setup_tss}

abbrev no_entry : ℕ → GdtEntry
no_entry _ = record { limit = 0; base = 0; accessbyte = 0; limit2 = 0; flags = 0; base2 = 0 }

-- A base in the last quarter of the address space loses its bits 28 to 31.
high_base : base_of (gdt_set_entry no_entry 1 0xfffff 0xfee00000 0x9a 0xa 1) ≡ 0xee00000
unfolding gdt_set_entry
high_base = refl

-- The limit of a task state segment is the size of its descriptor.
tss_limit : (setup_tss 0x7000).limit ≡ 16
unfolding setup_tss
tss_limit = refl

-- ===== src/Hal/Descriptors.antt =====
-- src/kernel/HAL/x86_common/gdt.c and src/kernel/inc/HAL/x86_64/hw_structs.h: the descriptors of
-- segments and of the task state segment. A bit field of `n` bits is a number that is taken
-- modulo 2 ^ n. Loading the table into the processor is not modelled.
use lizarx.Prelude.{ℕ, ◌+◌, ◌*◌, ◌/◌, ◌%◌, ◌^◌, ◌<◌, ◌≡◌, ◌≢◌, arith, set, set-other}

-- `struct gdt_entry`
pub record GdtEntry : Type 0 where
  pub limit : ℕ
  pub base : ℕ
  pub accessbyte : ℕ
  pub limit2 : ℕ
  pub flags : ℕ
  pub base2 : ℕ

-- `gdt_set_entry`
unfoldable pub gdt_set_entry : (ℕ → GdtEntry) → ℕ → ℕ → ℕ → ℕ → ℕ → ℕ → GdtEntry
gdt_set_entry table i limit base accessbyte flags = set table i (record {
  limit = limit % 2 ^ 16;
  base = base % 2 ^ 24;
  accessbyte = accessbyte % 2 ^ 8;
  limit2 = limit / 2 ^ 16 % 2 ^ 4;
  flags = flags % 2 ^ 4;
  base2 = base / 2 ^ 24 % 2 ^ 4;
})

-- The base and the limit that the processor puts together.
abbrev pub base_of : GdtEntry → ℕ
base_of e = e.base + e.base2 * 2 ^ 24

abbrev pub limit_of : GdtEntry → ℕ
limit_of e = e.limit + e.limit2 * 2 ^ 16

-- The processor finds the limit that `gdt_set_entry` was given, its access byte and its flags, and of the base the low
-- 28 bits; the other entries are as they were.
pub gdt_set_entry-base_of :
    (table : ℕ → GdtEntry) (i limit base accessbyte flags : ℕ)
    → limit < 2 ^ 20
    → base < 2 ^ 32
    → accessbyte < 2 ^ 8
    → flags < 2 ^ 4
    → let table' = gdt_set_entry table i limit base accessbyte flags in
      (base_of (table' i) ≡ base % 2 ^ 28)
      × (limit_of (table' i) ≡ limit)
      × ((table' i).accessbyte ≡ accessbyte)
      × ((table' i).flags ≡ flags)
      × ((j : ℕ) → j ≢ i → table' j ≡ table j)
unfolding gdt_set_entry
gdt_set_entry-base_of table i limit base accessbyte flags l b a f = (
  ground arith,
  ground arith,
  ground arith,
  ground arith,
  λ j ne.
      set-other table i
        (record {
          limit = limit % 2 ^ 16;
          base = base % 2 ^ 24;
          accessbyte = accessbyte % 2 ^ 8;
          limit2 = limit / 2 ^ 16 % 2 ^ 4;
          flags = flags % 2 ^ 4;
          base2 = base / 2 ^ 24 % 2 ^ 4;
        })
        j ne,
)

-- `struct gdt_tss_entry`, without its reserved fields.
pub record TssEntry : Type 0 where
  pub limit : ℕ
  pub base : ℕ
  pub accessbyte : ℕ
  pub limit2 : ℕ
  pub flags : ℕ
  pub base2 : ℕ

-- `setup_tss` for a `tss` at an address; 16 is the size of `struct gdt_tss_entry`.
unfoldable pub setup_tss : ℕ → TssEntry
setup_tss tss = record {
  limit = 16 % 2 ^ 16;
  base = tss % 2 ^ 24;
  accessbyte = 0xe9;
  limit2 = 16 / 2 ^ 16 % 2 ^ 4;
  flags = 0x2;
  base2 = tss / 2 ^ 24 % 2 ^ 40;
}

-- The whole address stands in the descriptor.
pub setup_tss-base :
    (tss : ℕ) → tss < 2 ^ 64 → (setup_tss tss).base + (setup_tss tss).base2 * 2 ^ 24 ≡ tss
unfolding setup_tss
setup_tss-base tss lt = omega arith

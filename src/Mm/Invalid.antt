-- ===== src/Mm/Invalid.antt =====
-- src/kernel/mm/vmm.c: kernel ranges that are freed, but that other processors may still see: they
-- wait on `invalid_stack` until each processor has dropped its translations in `sync_addr_space`. A
-- `struct to_invalid *` is a number that counts the entries from `invalid_stack` on. The lock and the
-- buffers of translations are not modelled.
pub mod Sync
mod Tests
pub mod Visit
use Prim.Native.Nat.{bit_or}
use lizarx.Prelude.{
  ◌>>=◌, ℕ, zero, suc, ◌+◌, ◌-◌, ◌%◌, ◌^◌, Bool, ◌&&◌, Option, some, ltb, ◌==◌, if◌then◌else◌, set,
}
use lizarx.Mm.Tables.{Space, page_size}
use lizarx.Mm.FreeStack.{Context, push_free}
use lizarx.Mm.Alloc.{Vmm, aligned_page, kfree_from}

-- `struct to_invalid`
pub record ToInvalid : Type 0 where
  pub virt : ℕ
  pub size : ℕ
  pub cores_invalidated : ℕ

-- MAX_STACK_INVLD_SIZ
abbrev pub max_stack_invld_siz : ℕ
max_stack_invld_siz = 100

-- `invalid_stack` with the memory behind it, and `invalid_stackptr`.
pub record Invalid : Type 0 where
  pub entries : ℕ → ToInvalid
  pub ptr : ℕ

-- `1 << apic_id`, an `int` that becomes a word: the processor takes the count modulo 32, and the bit 31 is the sign.
abbrev pub core_bit : ℕ → ℕ
core_bit apic_id = if apic_id % 32 == 31 then 2 ^ 64 - 2 ^ 31 else 2 ^ (apic_id % 32)

-- `vmm_remind_to_mark_free` on the processor `apic_id`.
unfoldable pub remind_to_mark_free : ℕ → ℕ → ℕ → Invalid → Invalid
remind_to_mark_free apic_id page len s =
    if ltb s.ptr max_stack_invld_siz
    then record {
      entries =
          set s.entries (s.ptr + 1)
            (record { virt = page; size = len; cores_invalidated = core_bit apic_id });
      ptr = s.ptr + 1;
    }
    else s

-- `kvmm_free_unsafe` and `kvmm_free`, with `startup` the tables of `startup_context`.
unfoldable pub kvmm_free :
    ℕ → Space → ℕ → Space → ℕ → ℕ → ℕ → Vmm × Invalid → Option (Vmm × Invalid)
unfolding remind_to_mark_free
kvmm_free depth cur rounds startup apic_id to_free size (v, s) =
    kfree_from depth cur rounds startup to_free (aligned_page size) 0 v.memory >>= λ m.
    some (record v { memory = m }, remind_to_mark_free apic_id to_free (aligned_page size) s)

-- `cores_invalidated |= (1 << apic_id)`
abbrev pub marked : ℕ → ToInvalid → ToInvalid
marked apic_id e = record e { cores_invalidated = bit_or e.cores_invalidated (core_bit apic_id) }

-- What `sync_addr_space` changes: the stack, and the free ranges of `startup_context`.
pub record Release : Type 0 where
  pub waiting : Invalid
  pub startup : Context

-- The body of the loop of `sync_addr_space` for the entry `cur`.
unfoldable pub visit : ℕ → ℕ → ℕ → Release → Release
visit apic_id all_cores_mask cur s =
    let e = marked apic_id (s.waiting.entries cur) in
    let entries' = set s.waiting.entries cur e in
    if e.cores_invalidated == all_cores_mask && cur == s.waiting.ptr
    then record {
      waiting = record { entries = entries'; ptr = s.waiting.ptr - 1 };
      startup = push_free s.startup e.virt e.size;
    }
    else record s { waiting = record (s.waiting) { entries = entries' } }

-- The loop, from the entry `cur` down to the one above the first.
unfoldable pub sync_from : ℕ → ℕ → ℕ → Release → Release
sync_from apic_id all_cores_mask zero s = s
sync_from apic_id all_cores_mask (suc cur) s =
    sync_from apic_id all_cores_mask cur (visit apic_id all_cores_mask (suc cur) s)

-- `sync_addr_space`
unfoldable pub sync_addr_space : ℕ → ℕ → Release → Release
unfolding sync_from visit
sync_addr_space apic_id all_cores_mask s = sync_from apic_id all_cores_mask s.waiting.ptr s

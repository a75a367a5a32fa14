-- ===== src/Mm/Alloc.antt =====
-- src/kernel/mm/vmm.c: the allocation of virtual memory, which puts together the free ranges of a
-- context, its page tables and the free physical pages. The spinlock is not modelled: each function
-- runs as one step. `none` is a recursion that goes deeper than `depth`, a loop that runs longer than
-- `rounds`, an `int` that overflows or an address that is off a page in `virt_to_phys_unsafe`.
pub mod Mapped
pub mod Malloc
mod Tests
use lizarx.Prelude.{
  ◌>>=◌, ℕ, zero, suc, ◌+◌, ◌-◌, ◌*◌, ◌/◌, ◌%◌, ◌^◌, Bool, true, false, Option, none, some, ltb,
  leb, if◌then◌else◌, ◌==◌,
}
use lizarx.Mm.Pages.{Pages, malloc_4k, free_4k}
use lizarx.Mm.Tables.{
  Space, Memory, page_size, flgcombat_user, flgcombat_kernel, vmm_map, virt_to_phys,
}
use lizarx.Mm.FreeStack.{Context, find_freemem, push_free}

-- ALIGNED_PAGE, on 64-bit words.
abbrev pub aligned_page : ℕ → ℕ
aligned_page n = (n + (page_size - 1)) % 2 ^ 64 / page_size * page_size

-- `pmm_malloc_4k` on the memory of the tables.
abbrev pub take_page : Memory → ℕ × Memory
take_page m = let r = malloc_4k m.pages in (r.0, record m { pages = r.1 })

-- `pmm_free_4k_glob` there.
abbrev pub give_page : ℕ → Memory → Memory
give_page page m = record m { pages = free_4k page m.pages }

-- What the functions change: the tables and the free pages, the free ranges of `startup_context`, and
-- those of the context that is given.
pub record Vmm : Type 0 where
  pub memory : Memory
  pub startup : Context
  pub ranges : Context

module _ (depth : ℕ) (activated : Bool) (cur : Space) where
  -- The loop of `vmm_malloc` from `i` on, an `int`: it overflows behind 2 ^ 31.
  pub map_from : ℕ → Space → ℕ → ℕ → ℕ → ℕ → Memory → Option Memory
  map_from zero ctx virt size flgs i m = none
  map_from (suc rounds) ctx virt size flgs i m =
      let r = take_page m in
      let rest =
        vmm_map depth activated cur ctx (r.0 * page_size % 2 ^ 64) ((virt + i) % 2 ^ 64) flgs r.1
        >>= map_from rounds ctx virt size flgs (i + page_size) in
      elim (ltb i size) [
        | false ↦ some m
        | true ↦ elim (ltb (i + page_size) (2 ^ 31)) [ true ↦ rest | false ↦ none ]
      ]

  -- The part of `vmm_malloc` behind the search: 0 is a failure.
  pub map_found : ℕ → Space → ℕ → ℕ → ℕ → Memory → Option Memory
  unfolding map_from
  map_found rounds ctx size flgs virt m =
      if virt == 0 then some m else map_from rounds ctx virt size flgs 0 m

  -- `vmm_malloc`: the address, or 0, and the state.
  unfoldable pub vmm_malloc : ℕ → Space → ℕ → Bool → ℕ → Vmm → Option (ℕ × Vmm)
  unfolding map_found
  vmm_malloc rounds ctx size kernel flgs v =
      let size' = aligned_page size in
      let r = find_freemem (if kernel then v.startup else v.ranges) size' in
      let v' = if kernel then record v { startup = r.1 } else record v { ranges = r.1 } in
      map_found rounds ctx size' flgs r.0 v.memory >>= λ m. some (r.0, record v' { memory = m })

  -- `kvmm_malloc`, with `startup` the tables of `startup_context`.
  unfoldable pub kvmm_malloc : ℕ → Space → ℕ → Vmm → Option (ℕ × Vmm)
  unfolding vmm_malloc
  kvmm_malloc rounds startup size v = vmm_malloc rounds startup size true flgcombat_kernel v

  -- `uvmm_malloc`
  unfoldable pub uvmm_malloc : ℕ → Space → ℕ → Vmm → Option (ℕ × Vmm)
  unfolding vmm_malloc
  uvmm_malloc rounds ctx size v = vmm_malloc rounds ctx size false flgcombat_user v

  -- `vmm_map_range_glob`: a fresh page for each page from `start` to `end`.
  unfoldable pub map_range : ℕ → Space → ℕ → ℕ → ℕ → Memory → Option Memory
  map_range zero ctx start end flgs m = none
  map_range (suc rounds) ctx start end flgs m =
      let r = take_page m in
      let rest =
        vmm_map depth activated cur ctx (r.0 * page_size % 2 ^ 64) start flgs r.1
        >>= map_range rounds ctx ((start + page_size) % 2 ^ 64) end flgs in
      elim (ltb start end) [ true ↦ rest | false ↦ some m ]

  -- `make_guard_page`
  unfoldable pub make_guard_page : ℕ → Space → Memory → Option Memory
  make_guard_page at ctx m =
      vmm_map depth activated cur ctx 0 (at / page_size * page_size % 2 ^ 64) 0 m

-- The functions below use `virt_to_phys_unsafe` as it is once paging is on.
module _ (depth : ℕ) (cur : Space) where
  -- The loop of `vmm_free`, whose `size` is a number of pages and whose `i` goes up by PAGE_SIZE.
  pub free_from : ℕ → Space → ℕ → ℕ → ℕ → Memory → Option Memory
  free_from zero ctx to_free size i m = none
  free_from (suc rounds) ctx to_free size i m =
      let rest = virt_to_phys depth cur cur ((to_free + i) % 2 ^ 64) m >>= λ r.
      vmm_map depth true cur ctx 0 ((to_free / page_size + i) * page_size % 2 ^ 64) 0
        (give_page (r.0 / page_size) r.1)
      >>= free_from rounds ctx to_free size (i + page_size) in
      elim (ltb i size) [ true ↦ rest | false ↦ some m ]

  -- `vmm_free`
  unfoldable pub vmm_free : ℕ → Space → ℕ → ℕ → Vmm → Option Vmm
  unfolding free_from
  vmm_free rounds ctx to_free size v =
      let pages = aligned_page size / page_size in
      free_from rounds ctx to_free pages 0 v.memory >>= λ m.
      some (record v { memory = m; ranges = push_free v.ranges to_free pages })

  -- The loop of `kvmm_free_unsafe`.
  pub kfree_from : ℕ → Space → ℕ → ℕ → ℕ → Memory → Option Memory
  kfree_from zero startup to_free size i m = none
  kfree_from (suc rounds) startup to_free size i m =
      let rest = virt_to_phys depth cur cur ((to_free + i) % 2 ^ 64) m >>= λ r.
      vmm_map depth true cur startup 0 ((to_free + i) % 2 ^ 64) 0 (give_page (r.0 / page_size) r.1)
      >>= kfree_from rounds startup to_free size (i + page_size) in
      elim (ltb i size) [ true ↦ rest | false ↦ some m ]

  -- The loop of `vmm_share_to_user`.
  pub share_from : ℕ → Space → ℕ → ℕ → ℕ → ℕ → Memory → Option Memory
  share_from zero ctx in_kernel virt size i m = none
  share_from (suc rounds) ctx in_kernel virt size i m =
      let rest = virt_to_phys depth cur ctx ((in_kernel + i) % 2 ^ 64) m >>= λ r.
      vmm_map depth true cur ctx r.0 ((virt + i) % 2 ^ 64) flgcombat_user r.1
      >>= share_from rounds ctx in_kernel virt size (i + page_size) in
      elim (ltb i (size * page_size % 2 ^ 64)) [ true ↦ rest | false ↦ some m ]

  -- `vmm_share_to_user`, for the context of the thread that runs: `ranges` are its free ranges.
  unfoldable pub share_to_user : ℕ → ℕ → ℕ → Vmm → Option (ℕ × Vmm)
  unfolding share_from
  share_to_user rounds in_kernel len v =
      let size = aligned_page len in
      let r = find_freemem v.ranges size in
      share_from rounds cur in_kernel r.0 size 0 v.memory >>= λ m.
      some (r.0, record v { memory = m; ranges = r.1 })

-- ===== src/Mm/Alloc/Tests.antt =====
-- `vmm_malloc` of two pages, in a context of four tables with one free range.
use lizarx.Prelude.{
  ◌>>=◌, ◌+◌, ◌*◌, ◌≡◌, refl, true, false, ◌&&◌, none, some, ◌==◌, if◌then◌else◌, arith,
}
use lizarx.Mm.Pages.{malloc_4k}
use lizarx.Mm.Tables.{Space, Memory, page_size, flgcombat_user, entry, vmm_map, virt_to_phys}
use lizarx.Mm.Tables.Tree.{Place, Tree, FreshPages}
use lizarx.Mm.FreeStack.{Context, IsValid, find_freemem}
use lizarx.Mm.Alloc.{Vmm, vmm_malloc}
use lizarx.Mm.Alloc.Mapped.{pages_needed}
use lizarx.Mm.Alloc.Malloc.{Allocatable, Allocation, vmm_malloc-Allocation}

abbrev space : Space
space = record { highest_paging = 10; first_dir_ptr = 11; first_dir = 12; first_table = 13 }

abbrev memory : Memory
memory = record {
  tables = λ p i.
      if p == 10 && i == 0
      then entry flgcombat_user 11
      else if p == 11 && i == 0
      then entry flgcombat_user 12
      else if p == 12 && i == 0
      then entry flgcombat_user 13
      else record { rw_flags = 0; next_paging_layer = 0 };
  pages = record { pmm_stack_ptr = 100; memory = λ a. a * page_size };
}

abbrev place : Place
place p =
    if p == 10
    then some (0, 0)
    else if p == 11
    then some (1, 0)
    else if p == 12
    then some (2, 0)
    else if p == 13
    then some (3, 0)
    else none

abbrev ranges : Context
ranges = record {
  base = 4;
  ptr = 5;
  stack = λ k. record { start = 0x8000002000; end = 0x8000006000 };
}

abbrev state : Vmm
state = record { memory = memory; startup = ranges; ranges = ranges }

sample-Tree : Tree place space memory
sample-Tree = record {
  linked = record { dir_ptr = refl; dir = refl; table = refl };
  highest = refl;
  dir_ptr = refl;
  dir = refl;
  table = refl;
  no_null = refl;
  numbers = λ p l pre e. ground arith;
  child = λ p l pre i e lt lt' here. ground arith;
}

sample-FreshPages : FreshPages (pages_needed 2) place memory.pages
unfolding malloc_4k
sample-FreshPages = (
  refl,
  omega arith,
  omega arith,
  λ a. (
    refl,
    omega arith,
    omega arith,
    λ b. (
      refl,
      omega arith,
      omega arith,
      λ c. (
        refl,
        omega arith,
        omega arith,
        λ d. (
          refl,
          omega arith,
          omega arith,
          λ e. (
            refl,
            omega arith,
            omega arith,
            λ f. (refl, omega arith, omega arith, λ g. (refl, omega arith, omega arith, λ h. tt)),
          ),
        ),
      ),
    ),
  ),
)

ranges-IsValid : IsValid ranges
ranges-IsValid = record {
  above_zero = omega arith;
  ordered = omega arith;
  ranges = λ k l. omega arith;
  disjoint = λ j k lj lk ne. absurd (omega arith);
}

sample-Allocatable : Allocatable place space space 0x1800 3 false state
sample-Allocatable = record {
  valid = ranges-IsValid;
  whole_pages = λ k l. omega arith;
  range = 4;
  live = omega arith;
  wide = omega arith;
  int_size = omega arith;
  enough = omega arith;
  tree = sample-Tree;
  root = refl;
  fresh = sample-FreshPages;
}

vmm_malloc-Allocation_example :
    Allocation place space space 0x1800 false state
      (vmm_malloc 2 true space 3 space 0x1800 false flgcombat_user state)
vmm_malloc-Allocation_example =
    vmm_malloc-Allocation 0 place space space 0x1800 3 false flgcombat_user state sample-Allocatable

-- The second page of the block is the one that was taken after the first page and its tables.
second_page :
    (vmm_malloc 2 true space 3 space 0x1800 false flgcombat_user state >>= λ r.
    virt_to_phys 1 space space (r.0 + page_size) r.1.memory >>= λ p. some p.0)
    ≡ some (104 * page_size)
unfolding vmm_malloc virt_to_phys find_freemem malloc_4k vmm_map
second_page = refl

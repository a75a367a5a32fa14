-- ===== src/Mm/Tables/Tests.antt =====
-- The theorems on page tables, on a context of four tables that has one page mapped.
use lizarx.Prelude.{◌>>=◌, ◌*◌, ◌≡◌, refl, true, ◌&&◌, none, some, ◌==◌, if◌then◌else◌, arith}
use lizarx.Mm.Pages.{malloc_4k}
use lizarx.Mm.Tables.{Space, Memory, page_size, flgcombat_user, entry, vmm_map, virt_to_phys}
use lizarx.Mm.Tables.Tree.{Place, Tree, FreshPages}
use lizarx.Mm.Tables.Walk.{Walk}
use lizarx.Mm.Tables.Mapping.{Mappable}
use lizarx.Mm.Tables.Reading.{virt_to_phys-vmm_map, virt_to_phys-other}

abbrev space : Space
space = record { highest_paging = 10; first_dir_ptr = 11; first_dir = 12; first_table = 13 }

-- The address 0x3000 is mapped to the page 7.
abbrev memory : Memory
memory = record {
  tables = λ p i.
      if p == 10 && i == 0
      then entry flgcombat_user 11
      else if p == 11 && i == 0
      then entry flgcombat_user 12
      else if p == 12 && i == 0
      then entry flgcombat_user 13
      else if p == 13 && i == 3
      then entry flgcombat_user 7
      else record { rw_flags = 0; next_paging_layer = 0 };
  pages = record { pmm_stack_ptr = 100; memory = λ a. a * page_size };
}

abbrev place : Place
place p =
    if p == 10
    then some (0, 0)
    else if p == 11
    then some (1, 0)
    else if p == 12
    then some (2, 0)
    else if p == 13
    then some (3, 0)
    else none

sample-Tree : Tree place space memory
sample-Tree = record {
  linked = record { dir_ptr = refl; dir = refl; table = refl };
  highest = refl;
  dir_ptr = refl;
  dir = refl;
  table = refl;
  no_null = refl;
  numbers = λ p l pre e. ground arith;
  child = λ p l pre i e lt lt' here. ground arith;
}

sample-FreshPages : FreshPages 3 place memory.pages
unfolding malloc_4k
sample-FreshPages = (
  refl,
  omega arith,
  omega arith,
  λ x. (refl, omega arith, omega arith, λ y. (refl, omega arith, omega arith, λ z. tt)),
)

-- A page below the second entry of the highest table, which takes three new tables.
sample-Mappable : Mappable 0 place space space 0x5000 0x8000002000 memory
sample-Mappable = record {
  tree = sample-Tree;
  root = refl;
  fresh = sample-FreshPages;
  virt_aligned = refl;
  phys_aligned = refl;
  virt_small = omega arith;
  not_buffer = omega arith;
}

sample-Walk : Walk memory 10 0x3000 (entry flgcombat_user 7)
sample-Walk = record {
  dir_ptr = 11;
  dir = 12;
  table = 13;
  present0 = refl;
  leads0 = refl;
  present1 = refl;
  leads1 = refl;
  present2 = refl;
  leads2 = refl;
  leaf = refl;
}

virt_to_phys-vmm_map_example :
    (vmm_map 2 true space space 0x5000 0x8000002000 flgcombat_user memory >>= λ m'.
    virt_to_phys 1 space space 0x8000002000 m' >>= λ r. some r.0)
    ≡ some 0x5000
virt_to_phys-vmm_map_example =
    virt_to_phys-vmm_map 0 0 0 place space space 0x5000 0x8000002000 flgcombat_user memory
      sample-Mappable (omega arith)

virt_to_phys-other_example :
    (vmm_map 2 true space space 0x5000 0x8000002000 flgcombat_user memory >>= λ m'.
    virt_to_phys 1 space space 0x3000 m' >>= λ r. some r.0)
    ≡ some (7 * page_size)
virt_to_phys-other_example =
    virt_to_phys-other 0 0 0 place space space space 0x5000 0x8000002000 flgcombat_user 0x3000
      (entry flgcombat_user 7) memory sample-Mappable refl (omega arith) refl (omega arith)
      (omega arith) sample-Walk

-- An address off a page changes nothing.
unaligned : vmm_map 1 true space space 0x5000 0x3001 flgcombat_user memory ≡ some memory
unfolding vmm_map
unaligned = refl

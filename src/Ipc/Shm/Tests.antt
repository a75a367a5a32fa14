-- ===== src/Ipc/Shm/Tests.antt =====
-- Examples of src/kernel/ipc/shm.c: four segments, and a fifth one, with which the array of the list is full.
use lizarx.Prelude.{◌≡◌, refl, ◌*◌, ◌-◌, ◌/◌, some, [], ◌∷◌, arith}
use lizarx.AList.{get_by_entry}
use lizarx.Mm.Tables.{Space, Memory, page_size}
use lizarx.Mm.FreeStack.{Context}
use lizarx.Ipc.Shm.{Segments, shmget, shmat, find_segment}
use lizarx.Ipc.Shm.Ids.{IsNumbered, Created, shmget-Created}

abbrev memory : Memory
memory = record {
  tables = λ p i. record { rw_flags = 0; next_paging_layer = 0 };
  pages = record { pmm_stack_ptr = 100; memory = λ a. a * page_size };
}

abbrev ranges : Context
ranges = record { base = 4; ptr = 4; stack = λ k. record { start = 0; end = 0 } }

-- The descriptors lie at 32, 64, 96 and 128.
abbrev segments : Segments
segments = record {
  shmid_list = record { used = 4; pointer = 32 ∷ 64 ∷ 96 ∷ 128 ∷ 0 ∷ [] } ∷ [];
  shmids =
      λ a. record { id = a / 32 - 1; shm_cpid = 1; virt_in_kernel = 0x40000000; size = 0x1000 };
  vmm = record { memory = memory; startup = ranges; ranges = ranges };
}

abbrev space : Space
space = record { highest_paging = 10; first_dir_ptr = 11; first_dir = 12; first_table = 13 }

segments-IsNumbered : IsNumbered segments
segments-IsNumbered = record {
  valid = record { counted = ((record { size = refl; count = refl }), tt); room = omega arith };
  packed = (
    (λ z. absurd (omega arith)),
    (
      (λ z. absurd (omega arith)),
      ((λ z. absurd (omega arith)), ((λ z. absurd (omega arith)), ((λ z. refl), tt))),
    ),
  );
  ids = (omega arith, refl, (omega arith, refl, (omega arith, refl, (omega arith, refl, tt))));
  small = omega arith;
}

shmget-Created_example : Created 160 7 0x3000 segments (shmget 160 7 0x3000 segments)
shmget-Created_example =
    shmget-Created 160 7 0x3000 segments segments-IsNumbered (omega arith) (omega arith) refl
      (omega arith)

third_segment : find_segment segments 2 ≡ some 96
unfolding get_by_entry
third_segment = refl

-- Another id than theirs is refused.
refused : shmat 2 9 space space 4 segments ≡ some (0, segments)
unfolding shmat get_by_entry
refused = refl

-- ===== src/Ipc/Shm.antt =====
-- src/kernel/ipc/shm.c and src/kernel/inc/ipc/shm.h: shared memory. The address that `kmalloc` gave for a
-- descriptor is an argument. `none` is as in Mm.Alloc, or a NULL that is read. The lock is not modelled;
-- `shmctl` and `shmdt` return -1 and do nothing.
pub mod Ids
mod Tests
use lizarx.Prelude.{◌>>=◌, ℕ, ◌^◌, ◌%◌, Option, none, some, ◌==◌, if◌then◌else◌, true, set}
use lizarx.AList.{AList, add, get_index, get_by_entry}
use lizarx.Ipc.Msg.{int_pattern}
use lizarx.Mm.Tables.{Space}
use lizarx.Mm.Alloc.{Vmm, kvmm_malloc, share_to_user}

-- `struct shmid_ds`; `id` is the pattern of the `int`.
pub record Shmid : Type 0 where
  pub id : ℕ
  pub shm_cpid : ℕ
  pub virt_in_kernel : ℕ
  pub size : ℕ

-- `shmid_list`, the memory that its entries lie in, and the memory that the segments take.
pub record Segments : Type 0 where
  pub shmid_list : AList
  pub shmids : ℕ → Shmid
  pub vmm : Vmm

-- `shmget` of `size` bytes in the process `pid`, with the address of the new descriptor.
unfoldable pub shmget : ℕ → ℕ → ℕ → Segments → Option (ℕ × Segments)
shmget buf pid size s = add s.shmid_list buf >>= λ l. some (
  int_pattern (get_index l buf),
  record s {
    shmid_list = l;
    shmids = set s.shmids buf (record {
      id = int_pattern (get_index l buf);
      shm_cpid = pid;
      virt_in_kernel = 0;
      size = size;
    });
  },
)

-- `alist_get_by_entry_s(&shmid_list, 0, shmid)`
abbrev pub find_segment : Segments → ℕ → Option ℕ
find_segment s shmid = get_by_entry (λ a. (s.shmids a).id) 0 shmid s.shmid_list

-- `shmat` where the thread's context is `cur`, and `startup` are the tables of `startup_context`; 0 is NULL.
unfoldable pub shmat : ℕ → ℕ → Space → Space → ℕ → Segments → Option (ℕ × Segments)
shmat depth rounds cur startup shmid s = elim (find_segment s shmid) [
  | none ↦ some (0, s)
  | some p ↦
      let d = s.shmids p in
      (if d.virt_in_kernel == 0
        then kvmm_malloc depth true cur rounds startup d.size s.vmm
        else some (d.virt_in_kernel, s.vmm))
      >>= λ k. share_to_user depth cur rounds k.0 d.size k.1 >>= λ u.
          some (
            u.0,
            record s { shmids = set s.shmids p (record d { virt_in_kernel = k.0 }); vmm = u.1 },
          )
]

-- ===== src/Ipc/Sem.antt =====
-- src/kernel/ipc/sem.c and src/kernel/inc/ipc/sem.h: semaphores. A value is the pattern of a `short`.
-- The sleepers are thread ids on an array list; `sleep` and `wakeup` are those of Mt.Threads. `none`
-- is a NULL that is read. The lock is not modelled.
pub mod Sleepers
pub mod Values
mod Tests
use mathlib.Core.Option
use lizarx.Prelude.{
  modify, set, ℕ, zero, suc, ◌+◌, ◌-◌, ◌%◌, ◌^◌, Bool, true, false, Option, none, some, List, [],
  ◌∷◌, ltb, leb, ◌==◌, if◌then◌else◌,
}
use lizarx.Prelude.Int.{ℤ, pos, negsuc, minus_one}
use lizarx.AList.{
  AList, empty_node, add, remove, get_by_index, get_index, get_by_entry, get_entry_n,
}
use lizarx.Mt.Threads.{Machine, sleep, wakeup}

-- `struct semaphore`
pub record Semaphore : Type 0 where
  pub semval : ℕ
  pub asleep : AList

-- `struct sem_group`
pub record SemGroup : Type 0 where
  pub key : ℕ
  pub sem_nsems : ℕ
  pub all_semaphores : ℕ → Semaphore

-- `struct sem_buf`
pub record SemBuf : Type 0 where
  pub sem_num : ℕ
  pub semop : ℕ

-- `sem_groups`, the memory of the groups, and the threads.
pub record Sems : Type 0 where
  pub sem_groups : AList
  pub groups : ℕ → SemGroup
  pub machine : Machine

abbrev pub value_of : ℤ → ℕ
value_of (pos n) = n
value_of (negsuc n) = 2 ^ 64 - 1 - n

-- A semaphore that `memset` has cleared.
abbrev pub cleared : Semaphore
cleared = record { semval = 0; asleep = empty_node ∷ [] }

-- `semget` of a key that no group has, with the memory of the new group.
abbrev pub new_group : ℕ → ℕ → Sems → Option (ℤ × Sems)
new_group nsems group s = elim (add s.sem_groups group) [
  | none ↦ none
  | some l ↦ some (
    get_index l group,
    record s {
      sem_groups = l;
      groups = set s.groups group (record {
        key = (value_of (get_index l group) + 1) % 2 ^ 64;
        sem_nsems = nsems % 2 ^ 16;
        all_semaphores = λ i. cleared;
      });
    },
  )
]

-- `semget`; what it reads through a NULL group is overwritten.
unfoldable pub semget : ℕ → ℕ → ℕ → Sems → Option (ℤ × Sems)
semget key nsems group s = elim (get_by_entry (λ a. (s.groups a).key) 0 key s.sem_groups) [
  | none ↦ new_group nsems group s
  | some g ↦ some (get_index s.sem_groups g, s)
]

-- The loop that wakes sleepers, from `j` on: the list and the threads. `cpus` is the fuel of `wakeup`.
unfoldable pub wake : ℕ → ℕ → ℕ → AList → Machine → Option (AList × Machine)
wake zero cpus j l m = none
wake (suc rounds) cpus j l m =
    if ltb j (get_entry_n l)
    then elim (get_by_index l 0) [
      | none ↦ none
      | some t_id ↦ elim (wakeup cpus t_id m) [
        | none ↦ none
        | some m' ↦ wake rounds cpus (j + 1) (remove l t_id).1 m'
      ]
    ]
    else some (l, m)

-- `semval += semop`, both of 16 bits, and the test of its sign.
abbrev pub plus_short : ℕ → ℕ → ℕ
plus_short a b = (a + b) % 2 ^ 16

abbrev pub is_negative : ℕ → Bool
is_negative a = leb (2 ^ 15) a

abbrev pub with_semaphore : ℕ → Semaphore → SemGroup → SemGroup
with_semaphore i v g = record g { all_semaphores = set g.all_semaphores i v }

-- The current thread of the processor `c` goes to sleep on the semaphore `i` of the group `g`.
abbrev pub fall_asleep : ℕ → ℕ → ℕ → Semaphore → Sems → Option (ℤ × Sems)
fall_asleep c g i v s =
    elim (add v.asleep (s.machine.threads (s.machine.cpus c).current_thread).t_id) [
      | none ↦ none
      | some l ↦ elim (sleep c s.machine) [
        | none ↦ none
        | some m ↦ some (
          minus_one,
          record s {
            groups = modify s.groups g (with_semaphore i (record v { asleep = l }));
            machine = m;
          },
        )
      ]
    ]

-- `semop` on the group `g`, by the current thread of the processor `c`.
unfoldable pub operate : ℕ → ℕ → ℕ → ℕ → List SemBuf → Sems → Option (ℤ × Sems)
unfolding wake
operate rounds cpus c g [] s = some (pos 0, s)
operate rounds cpus c g (op ∷ ops) s =
    let v = (s.groups g).all_semaphores op.sem_num in
    let v' : Semaphore = record v { semval = plus_short v.semval op.semop } in
    elim (leb (s.groups g).sem_nsems op.sem_num) [
      | true ↦ operate rounds cpus c g ops s
      | false ↦ elim (is_negative v'.semval) [
        | true ↦ fall_asleep c g op.sem_num v' s
        | false ↦ elim (wake rounds cpus 0 v'.asleep s.machine) [
          | none ↦ none
          | some (l, m) ↦ operate rounds cpus c g ops (record s {
            groups = modify s.groups g (with_semaphore op.sem_num (record v' { asleep = l }));
            machine = m;
          })
        ]
      ]
    ]

-- `semop`
unfoldable pub semop : ℕ → ℕ → ℕ → ℤ → List SemBuf → Sems → Option (ℤ × Sems)
unfolding operate
semop rounds cpus c (negsuc n) ops s = some (minus_one, s)
semop rounds cpus c (pos id) ops s = elim (get_by_index s.sem_groups id) [
  | none ↦ none
  | some g ↦ operate rounds cpus c g ops s
]

-- ===== src/Ipc/Sem/Tests.antt =====
-- Runs of the semaphores, and their theorems on a semaphore with the value -2 and two sleepers.
use lizarx.Prelude.{ℕ, ◌-◌, ◌^◌, ◌≡◌, refl, some, List, [], ◌∷◌, ◌==◌, if◌then◌else◌, arith}
use lizarx.Prelude.Int.{pos}
use lizarx.AList.{AList, add, get_by_index, get_by_entry, get_index}
use lizarx.AList.Contents.{IsValid}
use lizarx.Mt.Threads.{Machine}
use lizarx.Ipc.Sem.{SemBuf, Sems, semop, semget}
use lizarx.Ipc.Sem.Values.{Posted, semop-Posted}

abbrev list_of : ℕ → List ℕ → AList
list_of n xs = record { used = n; pointer = xs } ∷ []

-- One processor at 1000, which runs the thread at 10; the thread at `a` has the id `a / 10`, for 10, 20 and 30.
abbrev machine : Machine
machine = record {
  bsp_info = 1000;
  cpu_list = list_of 1 (1000 ∷ 0 ∷ 0 ∷ 0 ∷ 0 ∷ []);
  cpus = λ c. record {
    thread_list = list_of 3 (10 ∷ 20 ∷ 30 ∷ 0 ∷ 0 ∷ []);
    current_thread = 10;
    current_thread_index = 0;
    thread_count = 3;
    cur_proc = 0;
  };
  threads = λ a. record {
    t_id = if a == 10 then 1 else if a == 20 then 2 else 3;
    exc_state = if a == 10 then 0 else 1;
    state = 0;
    proc = 0;
    next_in_proc = 0;
  };
  first_threads = λ p. 0;
  total_thread_count = 3;
  cores_from_tables = 1;
}

abbrev sample : Sems
sample = record {
  sem_groups = list_of 1 (500 ∷ 0 ∷ 0 ∷ 0 ∷ 0 ∷ []);
  groups = λ g. record {
    key = 1;
    sem_nsems = 1;
    all_semaphores =
        λ i. record { semval = 2 ^ 16 - 2; asleep = list_of 2 (2 ∷ 3 ∷ 0 ∷ 0 ∷ 0 ∷ []) };
  };
  machine = machine;
}

abbrev up : ℕ → SemBuf
up n = record { sem_num = 0; semop = n }

asleep-IsValid : IsValid (list_of 2 (2 ∷ 3 ∷ 0 ∷ 0 ∷ 0 ∷ []))
asleep-IsValid = record { counted = (record { size = refl; count = refl }, tt); room = omega arith }

-- A semaphore that is not there is skipped, and a key that is not there makes a group.
skipped :
    semop 5 5 1000 (pos 0) (record { sem_num = 1; semop = 1 } ∷ []) sample ≡ some (pos 0, sample)
unfolding semop get_by_index
skipped = refl

made : (s' : Sems) × (semget 0 4 600 sample ≡ some (pos 1, s')) × ((s'.groups 600).key ≡ 2)
unfolding semget get_by_entry add get_index
made = (_, refl, refl)

-- The value goes from -2 to 0: one of the two is woken.
semop-Posted_example :
    (s' : Sems) × (semop 5 5 1000 (pos 0) (up 2 ∷ []) sample ≡ some (pos 0, s'))
    × Posted 5 500 0 0 sample s'
unfolding get_by_index
semop-Posted_example =
    semop-Posted 5 5 1000 0 500 (up 2) sample refl (omega arith) (omega arith) asleep-IsValid
      (omega arith) (omega arith) (omega arith)

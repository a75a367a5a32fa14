-- ===== src/Mt/Threads/Tests.antt =====
-- Runs of the scheduler, and its theorems on two processors with three threads.
use lizarx.Prelude.{
  ℕ, ◌+◌, ◌<◌, ◌≡◌, refl, Option, none, some, List, [], ◌∷◌, ◌==◌, if◌then◌else◌, arith, inl, inr,
  Bool-cases,
}
use lizarx.AList.{AList, get_by_index, get_by_entry, get_entry_n, add, remove}
use lizarx.AList.Contents.{IsValid}
use lizarx.Mt.Threads.{
  Thread, Cpu, Machine, get_thread, get_cpu, get_best_cpu, move_if_it_make_sense, thread_of, cpu_of,
}
use lizarx.Mt.Threads.Balance.{IsIn, NoneNearer, Counted, get_best_cpu-Nearest}
use lizarx.Mt.Threads.Dispatch.{choose, dispatch_thread, runs}
use lizarx.Mt.Threads.Dispatch.Choice.{Chosen, choose-Chosen}
use lizarx.Mt.Threads.Lookup.{Located, get_thread-Located}
use lizarx.Mt.Threads.Move.{Moved}

abbrev list_of : ℕ → List ℕ → AList
list_of n xs = record { used = n; pointer = xs } ∷ []

abbrev first_cpu : Cpu
first_cpu = record {
  thread_list = list_of 2 (10 ∷ 20 ∷ 0 ∷ 0 ∷ 0 ∷ []);
  current_thread = 10;
  current_thread_index = 0;
  thread_count = 2;
  cur_proc = 0;
}

abbrev second_cpu : Cpu
second_cpu = record {
  thread_list = list_of 1 (30 ∷ 0 ∷ 0 ∷ 0 ∷ 0 ∷ []);
  current_thread = 0;
  current_thread_index = 0;
  thread_count = 1;
  cur_proc = 0;
}

-- The threads at 10, 20 and 30 have the ids 1, 2 and 3; the one at 10 is blocked.
abbrev thread_at : ℕ → Thread
thread_at a = record {
  t_id = if a == 10 then 1 else if a == 20 then 2 else 3;
  exc_state = if a == 10 then 1 else 0;
  state = a + 5;
  proc = 0;
  next_in_proc = 0;
}

abbrev sample : Machine
sample = record {
  bsp_info = 1000;
  cpu_list = list_of 2 (1000 ∷ 2000 ∷ 0 ∷ 0 ∷ 0 ∷ []);
  cpus = λ c. if c == 1000 then first_cpu else second_cpu;
  threads = thread_at;
  first_threads = λ p. 0;
  total_thread_count = 3;
  cores_from_tables = 2;
}

found :
    (get_thread 3 sample 3 ≡ some 30)
    × (get_cpu 3 sample 3 ≡ some 2000)
    × (get_thread 3 sample 4 ≡ some 0)
unfolding get_thread get_cpu get_by_index get_by_entry
found = (refl, refl, refl)

nearest : get_best_cpu 3 sample ≡ some 2000
unfolding get_best_cpu get_by_index
nearest = refl

-- The blocked thread is passed over; the registers of the thread that ran are kept.
dispatched :
    (m : Machine) × (dispatch_thread 2 9 1000 77 sample ≡ some (runs 20 25 m))
    × ((m.threads 10).state ≡ 77)
unfolding dispatch_thread get_by_index get_by_entry get_entry_n move_if_it_make_sense add remove
dispatched = (_, refl, refl)

get_thread-Located_example :
    (r : Option (ℕ × ℕ)) × (get_thread 3 sample 3 ≡ some (thread_of r))
    × (get_cpu 3 sample 3 ≡ some (cpu_of r))
    × Located sample 3 (1000 ∷ 2000 ∷ []) r
get_thread-Located_example = get_thread-Located 3 sample 3 (omega arith)

sample-Counted : Counted sample
sample-Counted = record {
  cores = omega arith;
  total = omega arith;
  counts = λ c. elim (Bool-cases (c == 1000)) [
    | inl e ↦ rw e (omega arith)
    | inr e ↦ rw e (omega arith)
  ];
}

get_best_cpu-Nearest_example :
    (r : ℕ) × (get_best_cpu 3 sample ≡ some r)
    × IsIn r (1000 ∷ 2000 ∷ [])
    × NoneNearer sample r (1000 ∷ 2000 ∷ [])
get_best_cpu-Nearest_example =
    get_best_cpu-Nearest 3 sample (2000 ∷ []) refl (omega arith) sample-Counted

-- Without processors the division faults.
no_cores : get_best_cpu 3 (record sample { cores_from_tables = 0 }) ≡ none
unfolding get_best_cpu
no_cores = refl

first_cpu-IsValid : IsValid first_cpu.thread_list
first_cpu-IsValid = record {
  counted = (record { size = refl; count = refl }, tt);
  room = omega arith;
}

choose-Chosen_example :
    (k : ℕ) × (u : ℕ) × (m' : Machine) × (choose 2 (some 10) 1000 77 sample ≡ some (some (u, m')))
    × (k < 2)
    × Chosen 1000 77 k u sample m'
choose-Chosen_example =
    choose-Chosen 2 (some 10) 1000 77 1 20 sample (omega arith) first_cpu-IsValid (omega arith)
      (omega arith) (omega arith) (refl, omega arith) (omega arith)

-- The thread at 20 goes from the first processor to the second, and a thread at 40 that may run is left.
abbrev loaded_cpu : Cpu
loaded_cpu = record {
  thread_list = list_of 2 (20 ∷ 40 ∷ 0 ∷ 0 ∷ 0 ∷ []);
  current_thread = 20;
  current_thread_index = 0;
  thread_count = 2;
  cur_proc = 0;
}

abbrev loaded : Machine
loaded = record sample { cpus = λ c. if c == 1000 then loaded_cpu else second_cpu }

abbrev unloaded : Machine
unloaded = record sample {
  cpus = λ c.
      if c == 1000
      then record {
        thread_list = list_of 1 (0 ∷ 40 ∷ 0 ∷ 0 ∷ 0 ∷ []);
        current_thread = 0;
        current_thread_index = 0;
        thread_count = 1;
        cur_proc = 0;
      }
      else if c == 2000
      then record second_cpu { thread_list = list_of 2 (30 ∷ 20 ∷ 0 ∷ 0 ∷ 0 ∷ []) }
      else second_cpu;
}

unloaded-Moved : Moved 1000 2000 20 loaded unloaded
unloaded-Moved = record {
  left = refl;
  joined = (30 ∷ [], [], refl, refl);
  lists = (
    record { counted = (record { size = refl; count = refl }, tt); room = omega arith },
    record { counted = (record { size = refl; count = refl }, tt); room = omega arith },
  );
  stopped = (refl, refl);
  counted = refl;
  uncounted = refl;
  others = λ p c b. ground arith;
  threads = refl;
}

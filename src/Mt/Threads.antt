-- ===== src/Mt/Threads.antt =====
-- src/kernel/mt/threads.c: the threads of each processor, and which processor a thread goes to. The
-- structures lie at addresses; `none` is a NULL that is read, or a loop that runs out of fuel. The
-- lock is not modelled. The differences to the average are whole numbers, which a `float` holds
-- exactly below 2 ^ 24.
pub mod Balance
pub mod Dispatch
pub mod Lookup
pub mod Move
pub mod Seek
mod Tests
use mathlib.Core.Option
use lizarx.Prelude.{
  modify, ℕ, zero, suc, ◌+◌, ◌-◌, ◌/◌, ◌%◌, ◌^◌, Bool, true, false, Option, none, some, List, [],
  ◌∷◌, ltb, ◌==◌, if◌then◌else◌, ◌>>=◌,
}
use lizarx.AList.{AList, add, remove, get_by_index, get_by_entry}

-- THREAD_ACTIVE and THREAD_BLCKD
abbrev pub thread_active : ℕ
thread_active = 0

abbrev pub thread_blckd : ℕ
thread_blckd = 1

-- `struct thread`; `state` stands for the registers that `struct cpu_state` holds.
pub record Thread : Type 0 where
  pub t_id : ℕ
  pub exc_state : ℕ
  pub state : ℕ
  pub proc : ℕ
  pub next_in_proc : ℕ

-- `struct cpu_info`, as far as the threads go.
pub record Cpu : Type 0 where
  pub thread_list : AList
  pub current_thread : ℕ
  pub current_thread_index : ℕ
  pub thread_count : ℕ
  pub cur_proc : ℕ

-- The globals, and the memory of the processors and the threads. `bsp_info` is an address.
pub record Machine : Type 0 where
  pub bsp_info : ℕ
  pub cpu_list : AList
  pub cpus : ℕ → Cpu
  pub threads : ℕ → Thread
  pub first_threads : ℕ → ℕ
  pub total_thread_count : ℕ
  pub cores_from_tables : ℕ

abbrev pub modify_cpu : ℕ → (Cpu → Cpu) → Machine → Machine
modify_cpu c g m = record m { cpus = modify m.cpus c g }

abbrev pub modify_thread : ℕ → (Thread → Thread) → Machine → Machine
modify_thread t g m = record m { threads = modify m.threads t g }

abbrev pub with_state : ℕ → Thread → Thread
with_state s t = record t { exc_state = s }

-- `current_thread = NULL; current_thread_index = 0`
abbrev pub stop : Cpu → Cpu
stop k = record k { current_thread = 0; current_thread_index = 0 }

-- `alist_remove` and `alist_add` on the list of a processor, the latter with the list that it left.
abbrev pub drop_thread : ℕ → Cpu → Cpu
drop_thread t k = record k { thread_list = (remove k.thread_list t).1 }

abbrev pub with_list : AList → Cpu → Cpu
with_list l k = record k { thread_list = l }

-- The fields at 0 and at `sizeof(uint_t)` of a thread.
abbrev pub load_t_id : Machine → ℕ → ℕ
load_t_id m a = (m.threads a).t_id

abbrev pub load_exc_state : Machine → ℕ → ℕ
load_exc_state m a = (m.threads (a - 8)).exc_state

-- The loop of `get_thread` and `get_cpu`: the processor and the thread, if there is one.
unfoldable pub find_thread : ℕ → Machine → ℕ → ℕ → Option ℕ → Option (Option (ℕ × ℕ))
find_thread zero m t_id i cpu = none
find_thread (suc fuel) m t_id i none = some none
find_thread (suc fuel) m t_id i (some c) =
    let rest = find_thread fuel m t_id (i + 1) (get_by_index m.cpu_list (i + 1)) in
    elim (get_by_entry (load_t_id m) 0 t_id (m.cpus c).thread_list) [
      | none ↦ rest
      | some t ↦ some (some (c, t))
    ]

-- `get_thread`, 0 for NULL.
abbrev pub thread_of : Option (ℕ × ℕ) → ℕ
thread_of none = 0
thread_of (some (c, t)) = t

unfoldable pub get_thread : ℕ → Machine → ℕ → Option ℕ
unfolding find_thread
get_thread fuel m t_id =
    Option.map thread_of (find_thread fuel m t_id 0 (get_by_index m.cpu_list 0))

-- `get_cpu`
abbrev pub cpu_of : Option (ℕ × ℕ) → ℕ
cpu_of none = 0
cpu_of (some (c, t)) = c

unfoldable pub get_cpu : ℕ → Machine → ℕ → Option ℕ
unfolding find_thread
get_cpu fuel m t_id = Option.map cpu_of (find_thread fuel m t_id 0 (get_by_index m.cpu_list 0))

-- `sleep` on the processor `c`.
unfoldable pub sleep : ℕ → Machine → Option Machine
sleep c m =
    let t = (m.cpus c).current_thread in
    if t == 0 then none else some (modify_cpu c stop (modify_thread t (with_state thread_blckd) m))

-- `wakeup`
abbrev pub activate : ℕ → Machine → Machine
activate t m = if t == 0 then m else modify_thread t (with_state thread_active) m

unfoldable pub wakeup : ℕ → ℕ → Machine → Option Machine
unfolding get_thread
wakeup fuel t_id m = Option.map (λ t. activate t m) (get_thread fuel m t_id)

-- `average_thread_count`, a quotient of integers; `none` is the fault of a division by 0.
abbrev pub average : Machine → Option ℕ
average m =
    if m.cores_from_tables == 0 then none else some (m.total_thread_count / m.cores_from_tables)

-- How far a processor with one more thread is from the average; a `float` holds the numbers below 2 ^ 24 as they are.
abbrev pub diff : ℕ → Cpu → ℕ
diff avg c = let n = (c.thread_count + 1) % 2 ^ 32 in (n - avg) + (avg - n)

-- The loop of `get_best_cpu` and `move_if_it_make_sense` over the processors.
unfoldable pub best_from : ℕ → Machine → ℕ → ℕ → Option ℕ → ℕ → ℕ → Option ℕ
best_from zero m avg i cpu best best_diff = none
best_from (suc fuel) m avg i none best best_diff = some best
best_from (suc fuel) m avg i (some c) best best_diff =
    let closer = ltb (diff avg (m.cpus c)) best_diff in
    best_from fuel m avg (i + 1) (get_by_index m.cpu_list (i + 1)) (if closer then c else best)
      (if closer then diff avg (m.cpus c) else best_diff)

-- `get_best_cpu`
unfoldable pub get_best_cpu : ℕ → Machine → Option ℕ
unfolding best_from
get_best_cpu fuel m = average m >>= λ avg.
    best_from fuel m avg 0 (some m.bsp_info) m.bsp_info (diff avg (m.cpus m.bsp_info))

-- The move of a thread from the processor `c` to `best`.
unfoldable pub move : ℕ → ℕ → ℕ → Machine → Option Machine
move c best t m =
    let m' = modify_cpu c (drop_thread t) m in
    elim (add (m'.cpus best).thread_list t) [
      | none ↦ none
      | some l ↦ some (modify_cpu c stop (modify_cpu best (with_list l) m'))
    ]

abbrev pub with_cpu : ℕ → Option Machine → Option (ℕ × Machine)
with_cpu c none = none
with_cpu c (some m) = some (c, m)

-- `this_cpu->thread_count--`
abbrev pub discount : Cpu → Cpu
discount k = record k { thread_count = (k.thread_count + (2 ^ 32 - 1)) % 2 ^ 32 }

-- `this_cpu->thread_count++`
abbrev pub recount : Cpu → Cpu
recount k = record k { thread_count = (k.thread_count + 1) % 2 ^ 32 }

-- `move_if_it_make_sense`: the processor that keeps the thread.
unfoldable pub move_if_it_make_sense : ℕ → ℕ → ℕ → Machine → Option (ℕ × Machine)
unfolding best_from move
move_if_it_make_sense fuel c t m =
    let m' = modify_cpu c discount m in
    elim (average m' >>= λ avg.
    best_from fuel m' avg 0 (some m'.bsp_info) c (diff avg (m'.cpus m'.bsp_info))) [
      | none ↦ none
      | some best ↦
          if best == c then some (c, modify_cpu c recount m') else with_cpu best (move c best t m')
    ]

-- The list of the processor `c` takes the new thread, and the process gets it as its first.
abbrev pub enter : ℕ → ℕ → Machine → ℕ → Option Machine
enter t proc m c = elim (add (m.cpus c).thread_list t) [
  | none ↦ none
  | some l ↦ some (record (modify_cpu c recount (modify_cpu c (with_list l) m)) {
    first_threads = modify m.first_threads proc (λ p. t);
  })
]

-- `create_thread` for the process `proc`, with the memory `t` of the new thread and its first registers.
unfoldable pub create_thread : ℕ → ℕ → ℕ → ℕ → Machine → Option Machine
unfolding get_best_cpu
create_thread fuel t proc state m =
    let m' = record m { total_thread_count = (m.total_thread_count + 1) % 2 ^ 32 } in
    let thread : Thread = record {
      t_id = m'.total_thread_count;
      exc_state = thread_active;
      state = state;
      proc = proc;
      next_in_proc = m.first_threads proc;
    } in
    elim (get_best_cpu fuel m') [
      | none ↦ none
      | some c ↦ enter t proc (modify_thread t (λ old. thread) m') c
    ]

-- `kill_thread` on the processor `c`.
unfoldable pub kill_thread : ℕ → ℕ → Machine → Machine
kill_thread c t m = modify_cpu c stop (modify_cpu c (drop_thread t) m)

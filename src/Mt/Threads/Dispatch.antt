-- ===== src/Mt/Threads/Dispatch.antt =====
-- `dispatch_thread` of src/kernel/mt/threads.c, which schedule of src/kernel/mt/sched.c calls: the
-- thread that a processor runs next. Address spaces are not switched here.
pub mod Choice
use mathlib.Core.Option
use lizarx.Prelude.{
  ℕ, zero, suc, ◌+◌, ◌%◌, ◌^◌, Bool, true, false, Option, none, some, ◌==◌, if◌then◌else◌,
}
use lizarx.AList.{AList, get_by_index, get_by_entry, get_entry_n}
use lizarx.Mt.Threads.{
  Thread, Cpu, Machine, thread_active, thread_blckd, modify_cpu, modify_thread, load_exc_state,
  move_if_it_make_sense,
}

-- `are_there_still_threads`
abbrev pub are_there_still_threads : Cpu → Machine → Bool
are_there_still_threads k m = elim (get_by_entry (load_exc_state m) 8 thread_active k.thread_list) [
  | none ↦ false
  | some t ↦ true
]

-- The `while` loop for a processor that runs no thread, from `index` and the thread that stands there.
unfoldable pub seek_first : ℕ → Machine → AList → ℕ → Option ℕ → Option (ℕ × ℕ)
seek_first zero m l index cur = none
seek_first (suc fuel) m l index none = none
seek_first (suc fuel) m l index (some t) =
    let rest = seek_first fuel m l (index + 1) (get_by_index l (index + 1)) in
    if (m.threads t).exc_state == thread_blckd then rest else some (index, t)

-- The `do` loop that goes round the list behind `index`.
abbrev pub next_index : AList → ℕ → ℕ
next_index l index = (index + 1) % 2 ^ 64 % get_entry_n l

unfoldable pub seek_next : ℕ → Machine → AList → ℕ → Option (ℕ × ℕ)
seek_next zero m l index = none
seek_next (suc fuel) m l index =
    let rest = seek_next fuel m l (next_index l index) in
    elim (get_by_index l (next_index l index)) [
      | none ↦ none
      | some t ↦
          if (m.threads t).exc_state == thread_blckd then rest else some (next_index l index, t)
    ]

abbrev pub with_current : ℕ → ℕ → Cpu → Cpu
with_current index t k = record k { current_thread = t; current_thread_index = index }

abbrev pub with_registers : ℕ → Thread → Thread
with_registers regs t = record t { state = regs }

-- What was sought becomes the current thread of `c`.
abbrev pub take : ℕ → Machine → Option (ℕ × ℕ) → Option (Option (ℕ × Machine))
take c m none = none
take c m (some (index, t)) = some (some (t, modify_cpu c (with_current index t) m))

-- The body of the `do` loop of `dispatch_thread` before `move_if_it_make_sense`: the thread that was chosen, or
-- none where the processor goes idle. `regs` are the registers of the thread that ran.
unfoldable pub choose : ℕ → Option ℕ → ℕ → ℕ → Machine → Option (Option (ℕ × Machine))
unfolding seek_first seek_next
choose fuel first c regs m =
    let k = m.cpus c in
    let m' = modify_thread k.current_thread (with_registers regs) m in
    if k.current_thread == 0
    then (if are_there_still_threads k m
        then take c m (seek_first fuel m k.thread_list k.current_thread_index first)
        else some none)
    else take c m' (seek_next fuel m' k.thread_list k.current_thread_index)

-- What the processor does then: it is idle, or runs the thread with its registers.
pub data Outcome : Type 0 where
  idle : Machine → Outcome
  runs : ℕ → ℕ → Machine → Outcome

-- The end of `dispatch_thread`.
abbrev pub run : ℕ → ℕ → Machine → Outcome
run c t m =
    runs t (m.threads t).state (modify_cpu c (λ k. record k { cur_proc = (m.threads t).proc }) m)

-- The `do` loop, with `rounds` rounds at most; `first` is read before the loop.
unfoldable pub dispatch_from : ℕ → ℕ → Option ℕ → ℕ → ℕ → Machine → Option Outcome
unfolding choose move_if_it_make_sense
dispatch_from zero fuel first c regs m = none
dispatch_from (suc rounds) fuel first c regs m = elim (choose fuel first c regs m) [
  | none ↦ none
  | some r ↦ elim r [
    | none ↦ some (idle m)
    | some (t, m') ↦ elim (move_if_it_make_sense fuel c t m') [
      | none ↦ none
      | some (b, m'') ↦ elim (b == c) [
        | true ↦ some (run c t m'')
        | false ↦ dispatch_from rounds fuel first c regs m''
      ]
    ]
  ]
]

-- `dispatch_thread` on the processor `c`.
unfoldable pub dispatch_thread : ℕ → ℕ → ℕ → ℕ → Machine → Option Outcome
unfolding dispatch_from
dispatch_thread rounds fuel c regs m =
    if are_there_still_threads (m.cpus c) m
    then dispatch_from rounds fuel (get_by_index (m.cpus c).thread_list 0) c regs m
    else some (idle m)

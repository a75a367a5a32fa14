-- ===== src/Ipc/Sem/Values.antt =====
-- What `semop` returns, by the value that the semaphore gets.
use lizarx.Prelude.{
  modify, modify-same, set-same, ℕ, ◌+◌, ◌^◌, ◌<◌, ◌≤◌, ◌≡◌, ◌≢◌, refl, ap, ◌∙◌, sym, some, List,
  [], ◌∷◌, ◌++◌, arith, length, leb, ◌==◌, true, false, ◌/◌,
}
use lizarx.Prelude.Int.{pos, minus_one}
use lizarx.AList.{AList, add, get_by_index}
use lizarx.AList.Contents.{IsValid, contents}
use lizarx.AList.Add.{Inserted, Added, add-Added}
use lizarx.Mt.Threads.{thread_blckd, stop, sleep, modify_cpu, modify_thread, with_state}
use lizarx.Ipc.Sem.{
  Semaphore, SemBuf, Sems, plus_short, with_semaphore, fall_asleep, operate, semop,
}
use lizarx.Ipc.Sem.Sleepers.{wake-Halved, wake_all}

-- The semaphore `i` of the group `g`.
abbrev pub sem_at : Sems → ℕ → ℕ → Semaphore
sem_at s g i = (s.groups g).all_semaphores i

-- The current thread of `c` waits on the semaphore.
pub record Waiting (c g i v : ℕ) (s s' : Sems) : Type 0 where
  pub value : (sem_at s' g i).semval ≡ v
  pub queued :
      Inserted
        (s.machine.threads (s.machine.cpus c).current_thread).t_id
        (contents (sem_at s g i).asleep)
        (contents (sem_at s' g i).asleep)
  pub valid : IsValid (sem_at s' g i).asleep
  pub blocked : (s'.machine.threads (s.machine.cpus c).current_thread).exc_state ≡ thread_blckd
  pub stopped : (s'.machine.cpus c).current_thread ≡ 0

-- Where an operation on a semaphore of the group gives a negative value, and be it one that adds to it, the calling
-- thread is blocked and queued behind the semaphore, the rest of the operations is not made, and `semop` returns -1.
pub semop-Waiting :
    (rounds cpus c id g : ℕ) (op : SemBuf) (ops : List SemBuf) (s : Sems)
    → get_by_index s.sem_groups id ≡ some g
    → op.sem_num < (s.groups g).sem_nsems
    → 2 ^ 15 ≤ plus_short (sem_at s g op.sem_num).semval op.semop
    → (s.machine.cpus c).current_thread ≢ 0
    → (s.machine.threads (s.machine.cpus c).current_thread).t_id ≢ 0
    → IsValid (sem_at s g op.sem_num).asleep
    → (s' : Sems) × (semop rounds cpus c (pos id) (op ∷ ops) s ≡ some (minus_one, s'))
      × Waiting c g op.sem_num (plus_short (sem_at s g op.sem_num).semval op.semop) s s'
unfolding semop operate sleep
semop-Waiting rounds cpus c id g op ops s there within negative run nz v =
    let (l, e, a) = add-Added (sem_at s g op.sem_num).asleep (s.machine.threads cur).t_id v nz in
    finish l e a
  where
    cur : ℕ
    cur = (s.machine.cpus c).current_thread

    value : ℕ
    value = plus_short (sem_at s g op.sem_num).semval op.semop

    inside : leb (s.groups g).sem_nsems op.sem_num ≡ false
    inside = ground arith

    below : leb (2 ^ 15) value ≡ true
    below = ground arith

    set_run : (cur == 0) ≡ false
    set_run = ground arith

    finish :
        (l : AList)
        → add (sem_at s g op.sem_num).asleep (s.machine.threads cur).t_id ≡ some l
        → Added (s.machine.threads cur).t_id (sem_at s g op.sem_num).asleep l
        → (s' : Sems) × (semop rounds cpus c (pos id) (op ∷ ops) s ≡ some (minus_one, s'))
          × Waiting c g op.sem_num value s s'
    finish l e a =
        let after : Semaphore = record { semval = value; asleep = l } in
        let groups = modify s.groups g (with_semaphore op.sem_num after) in
        let at : (groups g).all_semaphores op.sem_num ≡ after =
          ap (λ k. k.all_semaphores op.sem_num)
            (modify-same s.groups g (with_semaphore op.sem_num after))
          ∙ set-same (s.groups g).all_semaphores op.sem_num after in
        (
          record s {
            groups = groups;
            machine = modify_cpu c stop (modify_thread cur (with_state thread_blckd) s.machine);
          },
          rw (there, semop, inside, operate, below, e, fall_asleep, set_run, sleep) refl,
          record {
            value = ap (λ k. k.semval) at;
            queued = rw at a.inserted;
            valid = rw at a.valid;
            blocked =
                ap (λ k. k.exc_state) (modify-same s.machine.threads cur (with_state thread_blckd));
            stopped = ap (λ k. k.current_thread) (modify-same s.machine.cpus c stop);
          },
        )

-- What one operation did that gave a value which is not negative.
pub record Posted (cpus g i v : ℕ) (s s' : Sems) : Type 0 where
  pub value : (sem_at s' g i).semval ≡ v
  pub front : List ℕ
  pub parts : contents (sem_at s g i).asleep ≡ front ++ contents (sem_at s' g i).asleep
  pub half : length front ≡ (length (contents (sem_at s g i).asleep) + 1) / 2
  pub woken : wake_all cpus front s.machine ≡ some s'.machine

-- Where an operation gives a value that is not negative, `semop` returns 0 and wakes the first half of the sleepers,
-- rounded up, and no others: they stay on the list even where the value has room for all.
pub semop-Posted :
    (rounds cpus c id g : ℕ) (op : SemBuf) (s : Sems)
    → get_by_index s.sem_groups id ≡ some g
    → op.sem_num < (s.groups g).sem_nsems
    → plus_short (sem_at s g op.sem_num).semval op.semop < 2 ^ 15
    → IsValid (sem_at s g op.sem_num).asleep
    → length (contents (sem_at s g op.sem_num).asleep) < 2 ^ 64
    → length (contents (sem_at s g op.sem_num).asleep) < rounds
    → length (contents s.machine.cpu_list) < cpus
    → (s' : Sems) × (semop rounds cpus c (pos id) (op ∷ []) s ≡ some (pos 0, s'))
      × Posted cpus g op.sem_num (plus_short (sem_at s g op.sem_num).semval op.semop) s s'
unfolding semop operate
semop-Posted rounds cpus c id g op s there within positive v small enough listed =
    let h =
      wake-Halved rounds cpus 0 (sem_at s g op.sem_num).asleep s.machine v small enough listed in
    let after : Semaphore = record { semval = value; asleep = h.asleep } in
    let groups = modify s.groups g (with_semaphore op.sem_num after) in
    let at : (groups g).all_semaphores op.sem_num ≡ after =
      ap (λ k. k.all_semaphores op.sem_num)
        (modify-same s.groups g (with_semaphore op.sem_num after))
      ∙ set-same (s.groups g).all_semaphores op.sem_num after in
    (
      record s { groups = groups; machine = h.machine },
      rw (there, semop, inside, operate, above, h.result) refl,
      record {
        value = ap (λ k. k.semval) at;
        front = h.front;
        parts = h.parts ∙ ap (λ k. h.front ++ contents k.asleep) (sym at);
        half = h.half ∙ omega arith;
        woken = h.woken;
      },
    )
  where
    value : ℕ
    value = plus_short (sem_at s g op.sem_num).semval op.semop

    inside : leb (s.groups g).sem_nsems op.sem_num ≡ false
    inside = ground arith

    above : leb (2 ^ 15) value ≡ false
    above = ground arith

-- ===== src/Mt/Threads/Move.antt =====
-- `move_if_it_make_sense`: what it moves, and what it counts.
use lizarx.Prelude.{ℕ, ◌+◌, ◌-◌, ◌%◌, ◌^◌, ◌≡◌, ◌≢◌, ◌⊎◌}
use lizarx.AList.{AList}
use lizarx.AList.Contents.{IsValid, contents, erase}
use lizarx.AList.Add.{Inserted}
use lizarx.Mt.Threads.{Machine, discount, recount}
use lizarx.Mt.Threads.Balance.{IsIn}
use lizarx.Mt.Threads.Lookup.{threads_at}

-- The thread `t` went from the processor `c` to `b`. The count of `c` goes down; that of `b` does not change.
pub record Moved (c b t : ℕ) (m m' : Machine) : Type 0 where
  pub left : threads_at m' c ≡ erase (threads_at m c) t
  pub joined : Inserted t (threads_at m b) (threads_at m' b)
  pub lists : IsValid (m'.cpus c).thread_list × IsValid (m'.cpus b).thread_list
  pub stopped : ((m'.cpus c).current_thread ≡ 0) × ((m'.cpus c).current_thread_index ≡ 0)
  pub counted : (m'.cpus c).thread_count ≡ ((m.cpus c).thread_count + (2 ^ 32 - 1)) % 2 ^ 32
  pub uncounted : (m'.cpus b).thread_count ≡ (m.cpus b).thread_count
  pub others : (p : ℕ) → p ≢ c → p ≢ b → m'.cpus p ≡ m.cpus p
  pub threads : m'.threads ≡ m.threads

-- The processor that keeps the thread, and the machine then.
abbrev pub Balanced : ℕ → ℕ → Machine → ℕ → Machine → Type 0
Balanced c t m b m' =
    ((b ≡ c)
      × (m'.threads ≡ m.threads)
      × ((p : ℕ) → p ≢ c → m'.cpus p ≡ m.cpus p)
      × (m'.cpus c ≡ recount (discount (m.cpus c))))
    ⊎ ((b ≢ c) × IsIn b (contents m.cpu_list) × (b ≢ m.bsp_info) × Moved c b t m m')

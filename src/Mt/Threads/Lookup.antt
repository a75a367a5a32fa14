-- ===== src/Mt/Threads/Lookup.antt =====
-- `get_thread` and `wakeup` against the threads that the processors hold.
use mathlib.Core.Path.{subst}
use lizarx.Prelude.{
  ℕ, zero, suc, ◌+◌, ◌<◌, ◌≡◌, ◌≢◌, refl, ap, ◌∙◌, Option, none, some, List, [], ◌∷◌, ◌++◌, arith,
  length, get_elem?, ◌⊎◌,
}
use lizarx.AList.{get_by_index, get_by_entry}
use lizarx.AList.Contents.{contents}
use lizarx.AList.Lookup.{Found, NoneHas, get_by_entry-Found, get_by_index-contents}
use lizarx.Mt.Threads.{
  Machine, find_thread, get_thread, get_cpu, cpu_of, wakeup, activate, thread_of, load_t_id,
  thread_active,
}

-- The threads of the processor at `c`.
abbrev pub threads_at : Machine → ℕ → List ℕ
threads_at m c = contents (m.cpus c).thread_list

-- None of these processors has a thread with the id.
abbrev pub NoneAt : Machine → ℕ → List ℕ → Type 0
NoneAt m t_id [] = Unit
NoneAt m t_id (c ∷ cs) = NoneHas (load_t_id m) 0 t_id (threads_at m c) × NoneAt m t_id cs

-- The first thread with the id on these processors, in their order, or none has it.
abbrev pub Located : Machine → ℕ → List ℕ → Option (ℕ × ℕ) → Type 0
Located m t_id cs none = NoneAt m t_id cs
Located m t_id cs (some (c, t)) =
    (front back : List ℕ) × (cs ≡ front ++ (c ∷ back))
    × NoneAt m t_id front
    × Found (load_t_id m) 0 t_id (threads_at m c) (some t)

Located-cons :
    (m : Machine) (t_id c : ℕ) (cs : List ℕ) (r : Option (ℕ × ℕ))
    → NoneHas (load_t_id m) 0 t_id (threads_at m c)
    → Located m t_id cs r
    → Located m t_id (c ∷ cs) r
Located-cons m t_id c cs none miss l = (miss, l)
Located-cons m t_id c cs (some (d, t)) miss (front, back, e, before, hit) =
    (c ∷ front, back, ap (λ xs. c ∷ xs) e, (miss, before), hit)

-- The processors from index `i` on.
abbrev From : Machine → ℕ → List ℕ → Type 0
From m i cs = (k : ℕ) → get_by_index m.cpu_list (i + k) ≡ get_elem? cs k

find_thread-Located :
    (fuel : ℕ) (m : Machine) (t_id i : ℕ) (cs : List ℕ)
    → From m i cs
    → length cs < fuel
    → (r : Option (ℕ × ℕ)) × (find_thread fuel m t_id i (get_elem? cs 0) ≡ some r)
      × Located m t_id cs r
unfolding find_thread
find_thread-Located zero m t_id i cs from h = absurd (omega arith)
find_thread-Located (suc fuel) m t_id i [] from h = (none, refl, tt)
find_thread-Located (suc fuel) m t_id i (c ∷ cs) from h =
    go (get_by_entry (load_t_id m) 0 t_id (m.cpus c).thread_list) refl (
      find_thread-Located fuel m t_id (i + 1) cs
        (λ k. ap (get_by_index m.cpu_list) (omega arith) ∙ from (suc k)) (omega arith))
  where
    hit :
        Found
          (load_t_id m)
          0
          t_id
          (threads_at m c)
          (get_by_entry (load_t_id m) 0 t_id (m.cpus c).thread_list)
    hit = get_by_entry-Found (load_t_id m) 0 t_id (m.cpus c).thread_list

    go :
        (r : Option ℕ)
        → get_by_entry (load_t_id m) 0 t_id (m.cpus c).thread_list ≡ r
        → (o : Option (ℕ × ℕ)) × (find_thread fuel m t_id (i + 1) (get_elem? cs 0) ≡ some o)
          × Located m t_id cs o
        → (o : Option (ℕ × ℕ)) × (find_thread (suc fuel) m t_id i (some c) ≡ some o)
          × Located m t_id (c ∷ cs) o
    go none e (o, rest, l) = (
      o,
      rw (e, find_thread, from 1) rest,
      Located-cons m t_id c cs o (subst (Found (load_t_id m) 0 t_id (threads_at m c)) e hit) l,
    )
    go (some t) e rest = (
      some (c, t),
      rw (e, find_thread),
      ([], cs, refl, tt, subst (Found (load_t_id m) 0 t_id (threads_at m c)) e hit),
    )

-- `get_thread` and `get_cpu`, with fuel for the processors, return the first thread with the id in the order of the
-- processors and of their lists, and the processor that holds it; they return NULL exactly if there is none.
pub get_thread-Located :
    (fuel : ℕ) (m : Machine) (t_id : ℕ)
    → length (contents m.cpu_list) < fuel
    → (r : Option (ℕ × ℕ)) × (get_thread fuel m t_id ≡ some (thread_of r))
      × (get_cpu fuel m t_id ≡ some (cpu_of r))
      × Located m t_id (contents m.cpu_list) r
unfolding get_thread get_cpu
get_thread-Located fuel m t_id h =
    let (r, e, l) =
      find_thread-Located fuel m t_id 0 (contents m.cpu_list)
        (λ k.
          get_by_index-contents m.cpu_list (0 + k)
          ∙ ap (get_elem? (contents m.cpu_list)) (omega arith))
        h in
    let first : get_by_index m.cpu_list 0 ≡ get_elem? (contents m.cpu_list) 0 =
      get_by_index-contents m.cpu_list 0 in
    (r, rw (first, e), rw (first, e), l)

-- What `wakeup` does to the threads: the one that was found is active, and no other changes.
pub record Woken (r : Option (ℕ × ℕ)) (m m' : Machine) : Type 0 where
  pub awake : thread_of r ≢ 0 → (m'.threads (thread_of r)).exc_state ≡ thread_active
  pub others : (u : ℕ) → (u ≢ thread_of r) ⊎ (u ≡ 0) → m'.threads u ≡ m.threads u
  pub id_kept : (u : ℕ) → (m'.threads u).t_id ≡ (m.threads u).t_id
  pub cpus : m'.cpus ≡ m.cpus
  pub listed : m'.cpu_list ≡ m.cpu_list

-- `wakeup` makes the first thread with the id active, and changes no other thread and no processor; without such a
-- thread it changes nothing.
pub wakeup-Woken :
    (fuel : ℕ) (t_id : ℕ) (m : Machine)
    → length (contents m.cpu_list) < fuel
    → (r : Option (ℕ × ℕ)) × (m' : Machine) × (wakeup fuel t_id m ≡ some m')
      × Located m t_id (contents m.cpu_list) r
      × Woken r m m'
unfolding wakeup
wakeup-Woken fuel t_id m h =
    let (r, e, e', l) = get_thread-Located fuel m t_id h in
    (r, activate (thread_of r) m, rw e refl, l, woken r)
  where
    woken : (r : Option (ℕ × ℕ)) → Woken r m (activate (thread_of r) m)
    woken r = record {
      awake = λ nz. ground arith;
      others = λ u ne. ground arith;
      id_kept = λ u. ground arith;
      cpus = ground arith;
      listed = ground arith;
    }

-- ===== src/Mt/Threads/Dispatch/Choice.antt =====
-- Which thread `dispatch_thread` chooses.
use native.Mathlib.Nat.{mod-add-mod, mod-lt, mod-eq_of_lt}
use lizarx.Prelude.{
  modify-same, modify-other, ℕ, zero, suc, ◌+◌, ◌-◌, ◌%◌, ◌^◌, ◌<◌, ◌≤◌, ◌≡◌, ◌≢◌, ◌⊎◌, inl, inr,
  refl, ap, sym, ◌∙◌, Option, some, List, arith, length, get_elem?, get_elem?-some, ◌==◌, true,
  false, ℕ_discrete, dec_lt,
}
use lizarx.AList.Contents.{IsValid, contents, has}
use lizarx.AList.Add.{Inserted}
use lizarx.Mt.Threads.{Machine, thread_blckd, modify_cpu, modify_thread}
use lizarx.Mt.Threads.Dispatch.{
  seek_first, choose, with_current, with_registers, are_there_still_threads,
}
use lizarx.Mt.Threads.Lookup.{threads_at}
use lizarx.Mt.Threads.Move.{Moved}
use lizarx.Mt.Threads.Seek.{BlockedAt, ActiveAt, Next, round, seek_next-Next}

-- Within `bound` steps there is a thread to run, or all are blocked.
search-Next :
    (m : Machine) (xs : List ℕ) (index bound : ℕ)
    → 0 < length xs
    → ((k : ℕ) × (t : ℕ) × (k < bound) × Next m xs index k t)
      ⊎ ((i : ℕ) → i < bound → BlockedAt m xs (round xs index i))
search-Next m xs index zero h = inr (λ i lt. absurd (omega arith))
search-Next m xs index (suc bound) h = go (search-Next m xs index bound h)
  where
    here : (u : ℕ) × (get_elem? xs (round xs index bound) ≡ some u)
    here = get_elem?-some xs (round xs index bound) (mod-lt (index + 1 + bound) h)

    go :
        ((k : ℕ) × (t : ℕ) × (k < bound) × Next m xs index k t)
          ⊎ ((i : ℕ) → i < bound → BlockedAt m xs (round xs index i))
        → ((k : ℕ) × (t : ℕ) × (k < suc bound) × Next m xs index k t)
          ⊎ ((i : ℕ) → i < suc bound → BlockedAt m xs (round xs index i))
    go (inl (k, t, lt, n)) = inl (k, t, omega arith, n)
    go (inr blocked) = elim (ℕ_discrete (m.threads here.0).exc_state thread_blckd) [
      | yes b ↦ inr (λ i lt. elim (dec_lt i bound) [
        | yes before ↦ blocked i before
        | no last ↦ (let e : i ≡ bound = omega arith in rw e (here.0, here.1, b))
      ])
      | no a ↦ inl (bound, here.0, omega arith, record { active = (here.1, a); blocked = blocked })
    ]

-- Every place is met going round.
reach :
    (xs : List ℕ) (index p : ℕ) → p < length xs → (i : ℕ) × (i < length xs) × (round xs index i ≡ p)
reach xs index p h = elim (dec_lt p ((index + 1) % length xs)) [
  | yes before ↦ (
    p + length xs - (index + 1) % length xs,
    omega (arith, r),
    around (p + length xs - (index + 1) % length xs)
        ∙ ap (λ a. a % length xs) (omega (arith, r))
        ∙ wrap p
        ∙ mod-eq_of_lt h,
  )
  | no behind ↦ (
    p - (index + 1) % length xs,
    omega (arith, r),
    around (p - (index + 1) % length xs)
        ∙ ap (λ a. a % length xs) (omega (arith, r))
        ∙ mod-eq_of_lt h,
  )
]
  where
    r : (index + 1) % length xs < length xs
    r = mod-lt (index + 1) (omega arith)

    around : (i : ℕ) → round xs index i ≡ ((index + 1) % length xs + i) % length xs
    around i = sym (mod-add-mod (index + 1) (length xs) i)

    wrap : (a : ℕ) → (a + length xs) % length xs ≡ a % length xs
    wrap a = grind arith

-- With a thread in the list that is not blocked, the search finds one within a round.
pub find-Next :
    (m : Machine) (xs : List ℕ) (index p t : ℕ)
    → p < length xs
    → ActiveAt m xs p t
    → (k : ℕ) × (u : ℕ) × (k < length xs) × Next m xs index k u
find-Next m xs index p t h a =
    go (search-Next m xs index (length xs) (omega arith)) (reach xs index p h)
  where
    go :
        ((k : ℕ) × (u : ℕ) × (k < length xs) × Next m xs index k u)
          ⊎ ((i : ℕ) → i < length xs → BlockedAt m xs (round xs index i))
        → (i : ℕ) × (i < length xs) × (round xs index i ≡ p)
        → (k : ℕ) × (u : ℕ) × (k < length xs) × Next m xs index k u
    go (inl n) r = n
    go (inr blocked) (i, lt, e) = absurd (stands (blocked i lt))
      where
        stands : BlockedAt m xs (round xs index i) → ⊥
        stands (u, f, b) =
            let same : some u ≡ some t = sym f ∙ ap (get_elem? xs) e ∙ a.0 in
            let eq : u ≡ t = cc in a.1 (ap (λ x. (m.threads x).exc_state) (sym eq) ∙ b)

-- The registers do not matter to the search.
registers-Next :
    (m : Machine) (xs : List ℕ) (cur regs index k u : ℕ)
    → Next m xs index k u
    → Next (modify_thread cur (with_registers regs) m) xs index k u
registers-Next m xs cur regs index k u n = record {
  active = (n.active.0, λ b. n.active.1 (sym (same u) ∙ b));
  blocked = λ i lt. let (v, e, b) = n.blocked i lt in (v, e, same v ∙ b);
}
  where
    same :
        (v : ℕ)
        → ((modify_thread cur (with_registers regs) m).threads v).exc_state
          ≡ (m.threads v).exc_state
    same v = ground arith

-- What was chosen: `u`, which stands `k` steps behind the thread that ran, whose registers are saved.
pub record Chosen (c regs k u : ℕ) (m m' : Machine) : Type 0 where
  pub next : Next m (threads_at m c) (m.cpus c).current_thread_index k u
  pub cpu :
      m'.cpus c
      ≡ with_current (round (threads_at m c) (m.cpus c).current_thread_index k) u (m.cpus c)
  pub saved : (m'.threads (m.cpus c).current_thread).state ≡ regs
  pub others : (v : ℕ) → v ≢ (m.cpus c).current_thread → m'.threads v ≡ m.threads v

-- A processor that runs a thread, with a thread in its list that is not blocked, takes the next one of these, going
-- round the list from the place of the one that runs, and saves its registers.
pub choose-Chosen :
    (fuel : ℕ) (first : Option ℕ) (c regs p t : ℕ) (m : Machine)
    → (m.cpus c).current_thread ≢ 0
    → IsValid (m.cpus c).thread_list
    → length (threads_at m c) < 2 ^ 64
    → (m.cpus c).current_thread_index < length (threads_at m c)
    → p < length (threads_at m c)
    → ActiveAt m (threads_at m c) p t
    → length (threads_at m c) ≤ fuel
    → (k : ℕ) × (u : ℕ) × (m' : Machine) × (choose fuel first c regs m ≡ some (some (u, m')))
      × (k < length (threads_at m c))
      × Chosen c regs k u m m'
unfolding choose
choose-Chosen fuel first c regs p t m run v small index h a enough =
    let (k, u, lt, n) = find-Next m (threads_at m c) (m.cpus c).current_thread_index p t h a in
    let found =
      seek_next-Next fuel saved (m.cpus c).thread_list (m.cpus c).current_thread_index k u v small
        index (omega arith)
        (registers-Next m (threads_at m c) (m.cpus c).current_thread regs
          (m.cpus c).current_thread_index k u n) in
    let runs : ((m.cpus c).current_thread == 0) ≡ false = ground arith in
    (
      k,
      u,
      modify_cpu c (with_current (round (threads_at m c) (m.cpus c).current_thread_index k) u)
          saved,
      rw (runs, found) refl,
      lt,
      record {
        next = n;
        cpu =
            modify-same m.cpus c
              (with_current (round (threads_at m c) (m.cpus c).current_thread_index k) u);
        saved =
            ap (λ x. x.state)
              (modify-same m.threads (m.cpus c).current_thread (with_registers regs));
        others =
            λ w ne. modify-other m.threads (m.cpus c).current_thread (with_registers regs) w ne;
      },
    )
  where
    saved : Machine
    saved = modify_thread (m.cpus c).current_thread (with_registers regs) m

-- Where `t` was the first thread of the processor and has just been moved to `b`, the next round of
-- `dispatch_thread` makes it the current thread of `c` all the same, as long as another thread of `c` may run: the
-- list of `c` does not hold it, and that of `b` does.
pub choose-stale :
    (fuel c b regs t : ℕ) (m m' : Machine)
    → Moved c b t m m'
    → b ≢ c
    → has (threads_at m' c) t ≡ false
    → (m'.threads t).exc_state ≢ thread_blckd
    → are_there_still_threads (m'.cpus c) m' ≡ true
    → (m'' : Machine) × (choose (suc fuel) (some t) c regs m' ≡ some (some (t, m'')))
      × ((m''.cpus c).current_thread ≡ t)
      × (has (threads_at m'' c) t ≡ false)
      × Inserted t (threads_at m b) (threads_at m'' b)
unfolding choose seek_first
choose-stale fuel c b regs t m m' moved ne out awake more =
    let active : ((m'.threads t).exc_state == thread_blckd) ≡ false = ground arith in
    let here = modify-same m'.cpus c (with_current (m'.cpus c).current_thread_index t) in
    let there = modify-other m'.cpus c (with_current (m'.cpus c).current_thread_index t) b ne in
    (
      modify_cpu c (with_current (m'.cpus c).current_thread_index t) m',
      rw (moved.stopped.0, more, active) refl,
      ap (λ k. k.current_thread) here,
      ap (λ k. has (contents k.thread_list) t) here ∙ out,
      rw there moved.joined,
    )

-- ===== src/Mt/Threads/Balance.antt =====
-- Which processor a thread goes to.
use mathlib.Core.Path.{subst}
use lizarx.Prelude.{
  ℕ, zero, suc, ◌+◌, ◌<◌, ◌≤◌, ◌≡◌, ◌⊎◌, inl, inr, refl, ap, sym, ◌∙◌, some, List, [], ◌∷◌, arith,
  length, get_elem?, ltb, ◌-◌, ◌/◌, ◌^◌, ◌==◌, false, Bool-cases,
}
use lizarx.AList.{get_by_index}
use lizarx.AList.Contents.{contents}
use lizarx.AList.Lookup.{get_by_index-contents}
use lizarx.Mt.Threads.{Machine, average, diff, best_from, get_best_cpu}

-- How far the processor at `c` is from the average.
abbrev pub off_by : Machine → ℕ → ℕ → ℕ
off_by m avg c = diff avg (m.cpus c)

-- `least` bounds the distances of all these processors.
abbrev pub AllFrom : Machine → ℕ → ℕ → List ℕ → Type 0
AllFrom m avg least [] = Unit
AllFrom m avg least (c ∷ cs) = (least ≤ off_by m avg c) × AllFrom m avg least cs

abbrev pub IsIn : ℕ → List ℕ → Type 0
IsIn a [] = ⊥
IsIn a (c ∷ cs) = (a ≡ c) ⊎ IsIn a cs

-- What the loop found, from `best` with the distance `d` and the processors left: no distance is smaller, and a
-- result other than `best` is one of these processors and has that distance.
pub record Best (m : Machine) (avg best d : ℕ) (cs : List ℕ) (r : ℕ) : Type 0 where
  pub least : ℕ
  pub bound : least ≤ d
  pub bounds : AllFrom m avg least cs
  pub chosen : ((r ≡ best) × (least ≡ d)) ⊎ (IsIn r cs × (off_by m avg r ≡ least) × (least < d))

AllFrom-le :
    (m : Machine) (avg a b : ℕ) (cs : List ℕ) → a ≤ b → AllFrom m avg b cs → AllFrom m avg a cs
AllFrom-le m avg a b [] h f = tt
AllFrom-le m avg a b (c ∷ cs) h f = (omega (arith, f.0), AllFrom-le m avg a b cs h f.1)

abbrev pub From : Machine → ℕ → List ℕ → Type 0
From m i cs = (k : ℕ) → get_by_index m.cpu_list (i + k) ≡ get_elem? cs k

closer-Best :
    (m : Machine) (avg best d c r : ℕ) (cs : List ℕ)
    → off_by m avg c < d
    → Best m avg c (off_by m avg c) cs r
    → Best m avg best d (c ∷ cs) r
closer-Best m avg best d c r cs lt b = record {
  least = b.least;
  bound = omega (arith, b.bound);
  bounds = (b.bound, b.bounds);
  chosen = pick b.chosen;
}
  where
    pick :
        ((r ≡ c) × (b.least ≡ off_by m avg c))
          ⊎ (IsIn r cs × (off_by m avg r ≡ b.least) × (b.least < off_by m avg c))
        → ((r ≡ best) × (b.least ≡ d))
          ⊎ (IsIn r (c ∷ cs) × (off_by m avg r ≡ b.least) × (b.least < d))
    pick (inl (e, f)) = inr (inl e, ap (off_by m avg) e ∙ sym f, omega (arith, b.bound))
    pick (inr (i, e, f)) = inr (inr i, e, omega arith)

farther-Best :
    (m : Machine) (avg best d c r : ℕ) (cs : List ℕ)
    → d ≤ off_by m avg c
    → Best m avg best d cs r
    → Best m avg best d (c ∷ cs) r
farther-Best m avg best d c r cs le b = record {
  least = b.least;
  bound = b.bound;
  bounds = (omega (arith, b.bound), b.bounds);
  chosen = pick b.chosen;
}
  where
    pick :
        ((r ≡ best) × (b.least ≡ d)) ⊎ (IsIn r cs × (off_by m avg r ≡ b.least) × (b.least < d))
        → ((r ≡ best) × (b.least ≡ d))
          ⊎ (IsIn r (c ∷ cs) × (off_by m avg r ≡ b.least) × (b.least < d))
    pick (inl e) = inl e
    pick (inr (i, e, f)) = inr (inr i, e, f)

pub best_from-Best :
    (fuel : ℕ) (m : Machine) (avg i best d : ℕ) (cs : List ℕ)
    → From m i cs
    → length cs < fuel
    → (r : ℕ) × (best_from fuel m avg i (get_elem? cs 0) best d ≡ some r) × Best m avg best d cs r
unfolding best_from
best_from-Best zero m avg i best d cs from h = absurd (omega arith)
best_from-Best (suc fuel) m avg i best d [] from h =
    (best, refl, record { least = d; bound = omega arith; bounds = tt; chosen = inl (refl, refl) })
best_from-Best (suc fuel) m avg i best d (c ∷ cs) from h =
    elim (Bool-cases (ltb (off_by m avg c) d)) [
      | inl closer ↦
          let (r, e, b) =
            best_from-Best fuel m avg (i + 1) c (off_by m avg c) cs next (omega arith) in
          (r, rw (closer, from 1) e, closer-Best m avg best d c r cs (ground arith) b)
      | inr farther ↦
          let (r, e, b) = best_from-Best fuel m avg (i + 1) best d cs next (omega arith) in
          (r, rw (farther, from 1) e, farther-Best m avg best d c r cs (ground arith) b)
    ]
  where
    next : From m (i + 1) cs
    next k = ap (get_by_index m.cpu_list) (omega arith) ∙ from (suc k)

listed : (m : Machine) → From m 0 (contents m.cpu_list)
listed m k =
    get_by_index-contents m.cpu_list (0 + k) ∙ ap (get_elem? (contents m.cpu_list)) (omega arith)

-- The loop over all processors, which begins with `bsp_info`.
pub all-Best :
    (fuel : ℕ) (m : Machine) (avg best d : ℕ) (cs : List ℕ)
    → contents m.cpu_list ≡ m.bsp_info ∷ cs
    → length (contents m.cpu_list) < fuel
    → (r : ℕ) × (best_from fuel m avg 0 (some m.bsp_info) best d ≡ some r)
      × Best m avg best d (m.bsp_info ∷ cs) r
all-Best fuel m avg best d cs e h =
    best_from-Best fuel m avg 0 best d (m.bsp_info ∷ cs) (subst (From m 0) e (listed m))
      (omega (arith, ap length e))

-- There are processors, and all counts are numbers that a `float` holds.
pub record Counted (m : Machine) : Type 0 where
  pub cores : 0 < m.cores_from_tables
  pub total : m.total_thread_count < 2 ^ 24
  pub counts : (c : ℕ) → (m.cpus c).thread_count + 1 < 2 ^ 24

abbrev pub mean : Machine → ℕ
mean m = m.total_thread_count / m.cores_from_tables

pub average-mean : (m : Machine) → 0 < m.cores_from_tables → average m ≡ some (mean m)
average-mean m lt = let e : (m.cores_from_tables == 0) ≡ false = ground (arith, lt) in rw e refl

-- How far a count with one more is from the average, without a wrap.
abbrev pub distance : Machine → ℕ → ℕ
distance m c = let n = (m.cpus c).thread_count + 1 in (n - mean m) + (mean m - n)

abbrev pub NoneNearer : Machine → ℕ → List ℕ → Type 0
NoneNearer m r [] = Unit
NoneNearer m r (c ∷ cs) = (distance m r ≤ distance m c) × NoneNearer m r cs

AllFrom-NoneNearer :
    (m : Machine) (r : ℕ) (cs : List ℕ)
    → Counted m
    → AllFrom m (mean m) (off_by m (mean m) r) cs
    → NoneNearer m r cs
AllFrom-NoneNearer m r [] h f = tt
AllFrom-NoneNearer m r (c ∷ cs) h f =
    (omega (arith, f.0, h.counts r, h.counts c), AllFrom-NoneNearer m r cs h f.1)

-- Where there are processors and all counts are below 2 ^ 24, `get_best_cpu`, with fuel for the processors, returns a
-- processor of the list, and none of the list would be nearer to the average with one more thread.
pub get_best_cpu-Nearest :
    (fuel : ℕ) (m : Machine) (cs : List ℕ)
    → contents m.cpu_list ≡ m.bsp_info ∷ cs
    → length (contents m.cpu_list) < fuel
    → Counted m
    → (r : ℕ) × (get_best_cpu fuel m ≡ some r)
      × IsIn r (contents m.cpu_list)
      × NoneNearer m r (contents m.cpu_list)
unfolding get_best_cpu
get_best_cpu-Nearest fuel m cs e h counted =
    let (r, f, b) = all-Best fuel m (mean m) m.bsp_info (off_by m (mean m) m.bsp_info) cs e h in
    (
      r,
      rw (average-mean m counted.cores) f,
      rw e (place b b.chosen),
      AllFrom-NoneNearer m r (contents m.cpu_list) counted (
          rw e (
            AllFrom-le m (mean m) (off_by m (mean m) r) b.least (m.bsp_info ∷ cs) (near b b.chosen)
              b.bounds)),
    )
  where
    place :
        {r : ℕ} (b : Best m (mean m) m.bsp_info (off_by m (mean m) m.bsp_info) (m.bsp_info ∷ cs) r)
        → ((r ≡ m.bsp_info) × (b.least ≡ off_by m (mean m) m.bsp_info))
          ⊎ (IsIn r (m.bsp_info ∷ cs)
              × (off_by m (mean m) r ≡ b.least)
              × (b.least < off_by m (mean m) m.bsp_info))
        → IsIn r (m.bsp_info ∷ cs)
    place b (inl (f, g)) = inl f
    place b (inr (i, f, g)) = i

    near :
        {r : ℕ} (b : Best m (mean m) m.bsp_info (off_by m (mean m) m.bsp_info) (m.bsp_info ∷ cs) r)
        → ((r ≡ m.bsp_info) × (b.least ≡ off_by m (mean m) m.bsp_info))
          ⊎ (IsIn r (m.bsp_info ∷ cs)
              × (off_by m (mean m) r ≡ b.least)
              × (b.least < off_by m (mean m) m.bsp_info))
        → off_by m (mean m) r ≤ b.least
    near b (inl (f, g)) = rw f (omega (arith, g))
    near b (inr (i, f, g)) = omega (arith, f)

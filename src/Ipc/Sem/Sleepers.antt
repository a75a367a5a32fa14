-- ===== src/Ipc/Sem/Sleepers.antt =====
-- The loop of `semop` that wakes sleepers.
use lizarx.Prelude.{
  ℕ, zero, suc, ◌+◌, ◌-◌, ◌/◌, ◌^◌, ◌<◌, ◌≤◌, ◌≡◌, ◌≢◌, refl, ap, sym, ◌∙◌, Option, none, some,
  List, [], ◌∷◌, ◌++◌, arith, length, get_elem?, ltb, ◌==◌, true, Bool-cases, inl, inr, dec_lt,
}
use lizarx.AList.{AList, remove, get_by_index, get_entry_n}
use lizarx.AList.Contents.{IsValid, live, contents, erase}
use lizarx.AList.Lookup.{get_by_index-contents, get_entry_n-length}
use lizarx.AList.Remove.{remove-Removed}
use lizarx.Mt.Threads.{Machine, wakeup}
use lizarx.Mt.Threads.Lookup.{wakeup-Woken}
use lizarx.Ipc.Sem.{wake}

-- Threads woken one after the other.
abbrev pub wake_all : ℕ → List ℕ → Machine → Option Machine
wake_all cpus [] m = some m
wake_all cpus (t ∷ ts) m = elim (wakeup cpus t m) [ none ↦ none | some m' ↦ wake_all cpus ts m' ]

-- What the loop did from `j` on: it woke the front of the list, half of what is left, rounded up.
pub record Halved (cpus j : ℕ) (l : AList) (m : Machine) (r : Option (AList × Machine))
    : Type 0 where
  pub front : List ℕ
  pub asleep : AList
  pub machine : Machine
  pub result : r ≡ some (asleep, machine)
  pub parts : contents l ≡ front ++ contents asleep
  pub half : length front ≡ (length (contents l) + 1 - j) / 2
  pub woken : wake_all cpus front m ≡ some machine
  pub valid : IsValid asleep

AllSet : List ℕ → Type 0
AllSet [] = Unit
AllSet (x ∷ xs) = (x ≢ 0) × AllSet xs

live-AllSet : (ps xs : List ℕ) → AllSet xs → AllSet (live ps ++ xs)
unfolding AllSet
live-AllSet [] xs a = a
live-AllSet (p ∷ ps) xs a = elim (Bool-cases (p == 0)) [
  | inl e ↦ rw e (live-AllSet ps xs a)
  | inr ne ↦ rw ne (ground arith, live-AllSet ps xs a)
]

contents-AllSet : (l : AList) → AllSet (contents l)
unfolding AllSet
contents-AllSet [] = tt
contents-AllSet (n ∷ l) = live-AllSet n.pointer (contents l) (contents-AllSet l)

wake-step :
    (rounds cpus j x : ℕ) (xs : List ℕ) (l : AList) (m m' : Machine)
    → contents l ≡ x ∷ xs
    → length (contents l) < 2 ^ 64
    → IsValid l
    → j < length (contents l)
    → wakeup cpus x m ≡ some m'
    → contents (remove l x).1 ≡ xs
    → Halved cpus (j + 1) (remove l x).1 m' (wake rounds cpus (j + 1) (remove l x).1 m')
    → Halved cpus j l m (wake (suc rounds) cpus j l m)
unfolding wake
wake-step rounds cpus j x xs l m m' e small v lt woken left h = record {
  front = x ∷ h.front;
  asleep = h.asleep;
  machine = h.machine;
  result = rw (more, wake, first, woken) h.result;
  parts = e ∙ ap (λ ys. x ∷ ys) (sym left ∙ h.parts);
  half = omega (arith, h.half, ap length e, ap length left);
  woken = rw (woken, wake_all) h.woken;
  valid = h.valid;
}
  where
    first : get_by_index l 0 ≡ some x
    first = get_by_index-contents l 0 ∙ ap (λ ys. get_elem? ys 0) e

    more : ltb j (get_entry_n l) ≡ true
    more =
        let n : get_entry_n l ≡ length (contents l) = get_entry_n-length l v ∙ omega arith in
        ground (arith, n)

counted :
    (l : AList) → IsValid l → length (contents l) < 2 ^ 64 → get_entry_n l ≡ length (contents l)
counted l v small = get_entry_n-length l v ∙ omega arith

wake-stop :
    (rounds cpus j : ℕ) (l : AList) (m : Machine)
    → length (contents l) < 2 ^ 64
    → IsValid l
    → length (contents l) ≤ j
    → Halved cpus j l m (wake (suc rounds) cpus j l m)
unfolding wake
wake-stop rounds cpus j l m small v le = record {
  front = [];
  asleep = l;
  machine = m;
  result = ground (arith, counted l v small);
  parts = refl;
  half = omega arith;
  woken = refl;
  valid = v;
}

-- The claim for `rounds` rounds.
abbrev Wakes : ℕ → ℕ → Type 0
Wakes rounds cpus =
    (j : ℕ) (l : AList) (m : Machine)
    → IsValid l
    → length (contents l) < 2 ^ 64
    → length (contents l) < rounds
    → length (contents m.cpu_list) < cpus
    → Halved cpus j l m (wake rounds cpus j l m)

wake-next :
    (rounds cpus j : ℕ) (l : AList) (m : Machine) (xs : List ℕ)
    → contents l ≡ xs
    → AllSet xs
    → Wakes rounds cpus
    → IsValid l
    → length (contents l) < 2 ^ 64
    → length (contents l) < suc rounds
    → length (contents m.cpu_list) < cpus
    → j < length (contents l)
    → Halved cpus j l m (wake (suc rounds) cpus j l m)
unfolding AllSet
wake-next rounds cpus j l m [] e set ih v small enough listed lt =
    absurd (omega (arith, ap length e))
wake-next rounds cpus j l m (x ∷ xs) e set ih v small enough listed lt =
    let (r, m', woken, located, w) = wakeup-Woken cpus x m listed in
    let gone = remove-Removed l x v set.0 in
    let same : (x == x) ≡ true = ground arith in
    let left : contents (remove l x).1 ≡ xs =
      gone.erased ∙ ap (λ ys. erase ys x) e ∙ rw same refl in
    wake-step rounds cpus j x xs l m m' e small v lt woken left (
      ih (j + 1) (remove l x).1 m' gone.valid (omega (arith, ap length left, ap length e))
        (omega (arith, ap length left, ap length e))
        (omega (arith, ap (λ k. length (contents k)) w.listed)))

-- The loop of `semop` wakes the front of the list, half of the sleepers rounded up, in order, and leaves the others
-- on the list, however the value stands.
pub wake-Halved :
    (rounds cpus j : ℕ) (l : AList) (m : Machine)
    → IsValid l
    → length (contents l) < 2 ^ 64
    → length (contents l) < rounds
    → length (contents m.cpu_list) < cpus
    → Halved cpus j l m (wake rounds cpus j l m)
wake-Halved zero cpus j l m v small enough listed = absurd (omega arith)
wake-Halved (suc rounds) cpus j l m v small enough listed = elim (dec_lt j (length (contents l))) [
  | yes lt ↦
      wake-next rounds cpus j l m (contents l) refl (contents-AllSet l) (wake-Halved rounds cpus) v
        small enough listed lt
  | no ge ↦ wake-stop rounds cpus j l m small v (omega arith)
]

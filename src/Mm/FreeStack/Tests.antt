-- ===== src/Mm/FreeStack/Tests.antt =====
-- The range stack with three ranges, and its theorems there.
use lizarx.Prelude.{◌+◌, ◌%◌, ◌^◌, ◌≢◌, ℕ, ◌≡◌, ◌↔◌, ◌⊎◌, refl, arith, ◌==◌, if◌then◌else◌}
use lizarx.Mm.FreeStack.{Entry, Context, find_freemem, push_free, In, IsFree, IsValid}
use lizarx.Mm.FreeStack.Find.{Allocated, find_freemem-Allocated}
use lizarx.Mm.FreeStack.Push.{push_free-Apart}

abbrev range : ℕ → ℕ → Entry
range a b = record { start = a; end = b }

abbrev three : ℕ → Entry
three k =
    if k == 4
    then range 0x1000 0x2000
    else if k == 5
    then range 0x4000 0x7000
    else if k == 6
    then range 0x8000 0x9000
    else range 0 0

abbrev sample : Context
sample = record { base = 4; ptr = 7; stack = three }

sample-IsValid : IsValid sample
sample-IsValid = record {
  above_zero = omega arith;
  ordered = omega arith;
  ranges = λ k l. (ground arith, ground arith);
  disjoint = λ j k lj lk ne. ground arith;
}

find_runs :
    ((find_freemem sample 0x1000).0 ≡ 0x8000)
    × ((find_freemem sample 0x2000).0 ≡ 0x4000)
    × (((find_freemem sample 0x2000).1.stack 5).start ≡ 0x6000)
    × ((find_freemem sample 0x4000).0 ≡ 0)
unfolding find_freemem
find_runs = (refl, refl, refl, refl)

-- The range that was just pushed is not found by the next search.
push_then_find :
    (find_freemem (push_free (record sample { ptr = 4 }) 0x20000 0x1000) 0x1000).0 ≡ 0x1000
unfolding find_freemem push_free
push_then_find = refl

find_freemem-Allocated_example : Allocated sample 0x2000 (find_freemem sample 0x2000)
find_freemem-Allocated_example =
    find_freemem-Allocated sample 0x2000 5 sample-IsValid (omega arith) (omega arith)

push_free-Apart_example :
    let c' = push_free sample 0x20000 0x1000 in
    (c'.ptr ≡ 8)
    × (c'.stack 8 ≡ record { start = 0x20000; end = (0x20000 + 0x1000) % 2 ^ 64 })
    × ((k : ℕ) → k ≢ 8 → c'.stack k ≡ sample.stack k)
    × ((a : ℕ) → IsFree c' a ↔ (IsFree sample a ⊎ In sample 7 a))
push_free-Apart_example =
    push_free-Apart sample 0x20000 0x1000 (omega arith)
      (λ k lo hi. (λ e. ground arith, λ e. ground arith))

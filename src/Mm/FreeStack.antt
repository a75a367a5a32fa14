-- ===== src/Mm/FreeStack.antt =====
-- src/kernel/mm/vmm.c: the stack of free virtual ranges of a context, `uvmm_find_freemem` and
-- `uvmm_push_free`. A `struct stack_entry *` is a number that counts entries, so `base - 1` is the
-- entry below the array. Addresses are 64-bit words.
pub mod Find
pub mod Push
pub mod Short
mod Tests
use lizarx.Prelude.{
  ℕ, zero, suc, ◌+◌, ◌-◌, ◌%◌, ◌^◌, ◌≤◌, ◌<◌, ◌≡◌, ◌≢◌, ◌⊎◌, ◌&&◌, Option, none, some, ltb, leb,
  ◌==◌, if◌then◌else◌,
}

-- `struct stack_entry`
pub record Entry : Type 0 where
  pub start : ℕ
  pub end : ℕ

-- The fields `mm_stack` (`base`) and `mm_stack_ptr` (`ptr`) of `vmm_context`, and the memory that
-- they point into.
pub record Context : Type 0 where
  pub base : ℕ
  pub ptr : ℕ
  pub stack : ℕ → Entry

-- `end - start` on 64-bit words.
abbrev pub width : Entry → ℕ
width e = (e.end + 2 ^ 64 - e.start) % 2 ^ 64

-- The `while` loop of `uvmm_find_freemem` from `cur_stack_entry` and `pages_free`. The test is made
-- before the pointer goes down, so the entry below the array is read last. (At 0 the test fails as
-- `base` is not 0, and the pointer is not used again.)
pub scan : (ℕ → Entry) → ℕ → ℕ → ℕ → ℕ → ℕ × ℕ
scan stack base pages zero free = (0, free)
scan stack base pages (suc cur) free =
    let rest = scan stack base pages cur (width (stack cur)) in
    if leb base (suc cur)
    then (if ltb (width (stack cur)) pages then rest else (cur, width (stack cur)))
    else (cur, free)

-- The `memmove` that closes the gap at `cur`.
pub close : (ℕ → Entry) → ℕ → ℕ → ℕ → Entry
close stack cur ptr k = if leb cur k && ltb k ptr then stack (k + 1) else stack k

abbrev pub write : (ℕ → Entry) → ℕ → Entry → ℕ → Entry
write stack cur e k = if k == cur then e else stack k

-- The part of `uvmm_find_freemem` behind its loop.
pub take_found : Context → ℕ → ℕ × ℕ → ℕ × Context
unfolding close
take_found c pages (cur, free) =
    if free == pages
    then ((c.stack cur).start, record c { ptr = c.ptr - 1; stack = close c.stack cur c.ptr })
    else if ltb pages free
    then (
      (c.stack cur).start,
      record c {
        stack =
            write c.stack cur
              (record (c.stack cur) { start = ((c.stack cur).start + pages) % 2 ^ 64 });
      },
    )
    else (0, c)

-- `uvmm_find_freemem`: the address, 0 for a failure, and the context.
unfoldable pub find_freemem : Context → ℕ → ℕ × Context
unfolding scan take_found
find_freemem c pages = take_found c pages (scan c.stack c.base pages c.ptr 0)

-- The merging loop of `uvmm_push_free` with `rounds` tests left that succeed. The pointer goes up
-- before the entry is read, so the first entry is skipped and two behind the top are read.
pub merge : (ℕ → Entry) → ℕ → ℕ → ℕ → ℕ → Option (ℕ → Entry)
merge stack page len zero cur = none
merge stack page len (suc rounds) cur =
    let e = stack (cur + 1) in
    let rest = merge stack page len rounds (cur + 1) in
    if e.end == page
    then some (write stack (cur + 1) (record e { end = (page + len) % 2 ^ 64 }))
    else if e.start == (page + len) % 2 ^ 64
    then some (write stack (cur + 1) (record e { start = page }))
    else rest

-- `uvmm_push_free`; `cur++ <= mm_stack_ptr` succeeds `ptr + 1 - base` times.
unfoldable pub push_free : Context → ℕ → ℕ → Context
unfolding merge
push_free c page len = elim (merge c.stack page len (c.ptr + 1 - c.base) c.base) [
  | some stack ↦ record c { stack = stack }
  | none ↦ record c {
    ptr = c.ptr + 1;
    stack = write c.stack (c.ptr + 1) (record { start = page; end = (page + len) % 2 ^ 64 });
  }
]

-- `a` lies in entry `k`.
abbrev pub In : Context → ℕ → ℕ → Type 0
In c k a = ((c.stack k).start ≤ a) × (a < (c.stack k).end)

-- `k` is an entry that `uvmm_find_freemem` is meant to offer.
abbrev pub Live : Context → ℕ → Type 0
Live c k = (c.base ≤ k) × (k < c.ptr)

-- The addresses that the stack holds free.
abbrev pub IsFree : Context → ℕ → Type 0
IsFree c a = (k : ℕ) × Live c k × In c k a

pub record IsValid (c : Context) : Type 0 where
  pub above_zero : 1 ≤ c.base
  pub ordered : c.base ≤ c.ptr
  pub ranges :
      (k : ℕ) → Live c k → ((c.stack k).start ≤ (c.stack k).end) × ((c.stack k).end < 2 ^ 64)
  pub disjoint :
      (j k : ℕ)
      → Live c j
      → Live c k
      → j ≢ k
      → ((c.stack j).end ≤ (c.stack k).start) ⊎ ((c.stack k).end ≤ (c.stack j).start)

-- ===== src/Mm/Start/Ranges.antt =====
-- The free addresses of `startup_context` after `vmm_init`.
use lizarx.Prelude.{
  ℕ, ◌+◌, ◌%◌, ◌^◌, ◌≤◌, ◌<◌, ◌≡◌, ◌≢◌, ◌⊎◌, inl, inr, refl, ap, sym, ◌∙◌, true, false, List, [],
  ◌∷◌, length, ltb, ◌==◌, if◌then◌else◌, arith, Bool-cases,
}
use mathlib.Core.Path.{subst}
use lizarx.Mm.Pages.{Region, page_size, aligned_base, masked}
use lizarx.Mm.FreeStack.{Entry, Context, write, Live, IsFree, IsValid}
use lizarx.Mm.Start.{kernel_space, range_of, push_range, init_ranges}

-- A free entry of the map behind `low`, which begins at a page in the space of the kernel.
pub record Fits (low : ℕ) (r : Region) : Type 0 where
  pub aligned : r.base % page_size ≡ 0
  pub behind : low ≤ r.base
  pub in_kernel : r.base ≤ kernel_space
  pub small : r.size < 2 ^ 32

-- The free entries of the map lie one behind the other.
abbrev pub Ordered : ℕ → List Region → Type 0
Ordered low [] = Unit
Ordered low (r ∷ rs) =
    (r.kind ≡ 1 → Fits low r) × Ordered (if r.kind == 1 then r.base + r.size else low) rs

-- `a` lies in the whole pages of a free entry, in the space of the kernel.
abbrev pub Offers : Region → ℕ → Type 0
Offers r a = (r.kind ≡ 1) × (r.base ≤ a) × (a < r.base + masked r.size) × (a < kernel_space)

abbrev pub Offered : List Region → ℕ → Type 0
Offered [] a = ⊥
Offered (r ∷ rs) a = Offers r a ⊎ Offered rs a

-- What holds before an entry of the map: the ranges are valid and end at `low` at the latest.
record Ready (low : ℕ) (c : Context) : Type 0 where
  valid : IsValid c
  ends : (k : ℕ) → Live c k → (c.stack k).end ≤ low

-- The range of an entry in numbers.
record Range (low : ℕ) (r : Region) (e : Entry) : Type 0 where
  start : e.start ≡ r.base
  above : low ≤ e.start
  order : e.start ≤ e.end
  within : e.end ≤ r.base + r.size
  kernel : e.end ≤ kernel_space
  reach : (a : ℕ) → a < r.base + masked r.size → a < kernel_space → a < e.end
  only : (a : ℕ) → a < e.end → a < r.base + masked r.size

range_of-Range : (low : ℕ) (r : Region) → Fits low r → Range low r (range_of r)
range_of-Range low r f =
    let base : aligned_base r.base ≡ r.base = omega (arith, f) in
    let sum : (r.base + masked r.size) % 2 ^ 64 ≡ r.base + masked r.size = omega (arith, f) in
    rw (base, sum)
      (elim (Bool-cases (ltb kernel_space (r.base + masked r.size))) [
        | inl beyond ↦ rw beyond (record {
          start = refl;
          above = f.behind;
          order = f.in_kernel;
          within = ground (arith, beyond);
          kernel = omega arith;
          reach = λ a lt kernel. kernel;
          only = λ a lt. ground (arith, beyond, lt);
        })
        | inr inside ↦ rw inside (record {
          start = refl;
          above = f.behind;
          order = omega arith;
          within = omega arith;
          kernel = ground (arith, inside);
          reach = λ a lt kernel. lt;
          only = λ a lt. lt;
        })
      ])

-- `a` lies in an entry of the stack.
abbrev Within : ℕ → Entry → Type 0
Within a e = (e.start ≤ a) × (a < e.end)

-- The context with one more range.
abbrev pushed : Region → Context → Context
pushed r c = record c { ptr = c.ptr + 1; stack = write c.stack c.ptr (range_of r) }

write-old : (m : ℕ → Entry) (at : ℕ) (e : Entry) (k : ℕ) → k ≢ at → write m at e k ≡ m k
write-old m at e k ne = let other : (k == at) ≡ false = ground arith in rw other refl

write-new : (m : ℕ → Entry) (at : ℕ) (e : Entry) → write m at e at ≡ e
write-new m at e = let same : (at == at) ≡ true = ground arith in rw same refl

module _ (low : ℕ) (r : Region) (c : Context) (h : Ready low c) (f : Fits low r) where
  new-Range : Range low r (range_of r)
  new-Range = range_of-Range low r f

  kept : (k : ℕ) → Live c k → (pushed r c).stack k ≡ c.stack k
  kept k live = write-old c.stack c.ptr (range_of r) k (omega (arith, live.1))

  new_entry : (pushed r c).stack c.ptr ≡ range_of r
  new_entry = write-new c.stack c.ptr (range_of r)

  -- An entry of the new context is an old one or the new one.
  Live-pushed : (k : ℕ) → Live (pushed r c) k → Live c k ⊎ (k ≡ c.ptr)
  Live-pushed k live = ground (arith, live)

  -- An old range is in front of the new one.
  in_front : (k : ℕ) → Live c k → (c.stack k).end ≤ (range_of r).start
  in_front k live = omega (arith, h.ends k live, new-Range.above)

  pushed-Ready : Ready (r.base + r.size) (pushed r c)
  pushed-Ready = record {
    valid = record {
      above_zero = h.valid.above_zero;
      ordered = omega (arith, h.valid.ordered);
      ranges = λ k live. elim (Live-pushed k live) [
        | inl old ↦ rw (kept k old) (h.valid.ranges k old)
        | inr new ↦ rw (new, new_entry) (new-Range.order, omega (arith, new-Range.kernel))
      ];
      disjoint = λ j k live live' ne. apart j k (Live-pushed j live) (Live-pushed k live') ne;
    };
    ends = λ k live. elim (Live-pushed k live) [
      | inl old ↦ rw (kept k old) (omega (arith, h.ends k old, f.behind))
      | inr new ↦ rw (new, new_entry) new-Range.within
    ];
  }
    where
      apart :
          (j k : ℕ)
          → Live c j ⊎ (j ≡ c.ptr)
          → Live c k ⊎ (k ≡ c.ptr)
          → j ≢ k
          → (((pushed r c).stack j).end ≤ ((pushed r c).stack k).start)
            ⊎ (((pushed r c).stack k).end ≤ ((pushed r c).stack j).start)
      apart j k (inl old) (inl old') ne =
          rw (kept j old, kept k old') (h.valid.disjoint j k old old' ne)
      apart j k (inl old) (inr new) ne = rw (kept j old, new, new_entry) (inl (in_front j old))
      apart j k (inr new) (inl old) ne = rw (kept k old, new, new_entry) (inr (in_front k old))
      apart j k (inr new) (inr new') ne = absurd (ne (new ∙ sym new'))

  -- What is free then was free, or is offered by the entry.
  IsFree-pushed : (a : ℕ) → r.kind ≡ 1 → IsFree (pushed r c) a → IsFree c a ⊎ Offers r a
  IsFree-pushed a free (k, live, inside) = elim (Live-pushed k live) [
    | inl old ↦ inl (k, old, subst (Within a) (kept k old) inside)
    | inr new ↦
        let (from, to) = subst (Within a) (ap (pushed r c).stack new ∙ new_entry) inside in
        inr (
          free,
          omega (arith, from, new-Range.start),
          new-Range.only a to,
          omega (arith, to, new-Range.kernel),
        )
  ]

  IsFree-kept : (a : ℕ) → IsFree c a → IsFree (pushed r c) a
  IsFree-kept a (k, live, inside) =
      (k, omega (arith, live), subst (Within a) (sym (kept k live)) inside)

  IsFree-new : (a : ℕ) → Offers r a → IsFree (pushed r c) a
  IsFree-new a (free, from, to, kernel) = (
    c.ptr,
    omega (arith, h.valid.ordered),
    subst (Within a) (sym new_entry)
        (omega (arith, new-Range.start, from), new-Range.reach a to kernel),
  )

-- What the loop makes of a context.
record Filled (rs : List Region) (c c' : Context) : Type 0 where
  valid : IsValid c'
  only : (a : ℕ) → IsFree c' a → IsFree c a ⊎ Offered rs a
  all : (a : ℕ) → IsFree c a ⊎ Offered rs a → IsFree c' a

-- An entry that is not free is passed over.
push_range-other : (r : Region) (c : Context) → (r.kind == 1) ≡ false → push_range r c ≡ c
unfolding push_range
push_range-other r c e = rw e refl

push_range-free :
    (r : Region) (c : Context)
    → (r.kind == 1) ≡ true
    → c.ptr < c.base + 256
    → push_range r c ≡ pushed r c
unfolding push_range
push_range-free r c e lt =
    let room : ltb c.ptr (c.base + 256) ≡ true = ground (arith, lt) in rw (e, room) refl

from_Ready :
    (rs : List Region) (low : ℕ) (c : Context)
    → Ready low c
    → Ordered low rs
    → c.ptr + length rs ≤ c.base + 256
    → Filled rs c (init_ranges rs c)
unfolding init_ranges
from_Ready [] low c h o room = record {
  valid = h.valid;
  only = λ a free. inl free;
  all = λ a free. elim free [ inl f ↦ f | inr none ↦ absurd none ];
}
from_Ready (r ∷ rs) low c h o room = elim (Bool-cases (r.kind == 1)) [
  | inl free ↦
      let kind : r.kind ≡ 1 = ground (arith, free) in
      let f = o.0 kind in
      let next : Ordered (r.base + r.size) rs = rw free at o.1 in
      let rest =
        from_Ready rs (r.base + r.size) (pushed r c) (pushed-Ready low r c h f) next
          (omega (arith, room)) in
      rw (push_range-free r c free (omega (arith, room))) (record {
        valid = rest.valid;
        only = λ a here. elim (rest.only a here) [
          | inl was ↦ elim (IsFree-pushed low r c h f a kind was) [
            | inl old ↦ inl old
            | inr new ↦ inr (inl new)
          ]
          | inr later ↦ inr (inr later)
        ];
        all = λ a here. rest.all a (elim here [
          | inl was ↦ inl (IsFree-kept low r c h f a was)
          | inr (inl new) ↦ inl (IsFree-new low r c h f a new)
          | inr (inr later) ↦ inr later
        ]);
      })
  | inr other ↦
      let next : Ordered low rs = rw other at o.1 in
      let rest = from_Ready rs low c h next (omega (arith, room)) in
      rw (push_range-other r c other) (record {
        valid = rest.valid;
        only =
            λ a here. elim (rest.only a here) [ inl was ↦ inl was | inr later ↦ inr (inr later) ];
        all = λ a here. rest.all a (elim here [
          | inl was ↦ inl was
          | inr (inl new) ↦ absurd (ground (arith, new.0, other))
          | inr (inr later) ↦ inr later
        ]);
      })
]

-- Where the free entries of the memory map lie one behind the other, each begins at a page in the first gigabyte, is
-- smaller than 4 GB, and there are at most 256 entries, `vmm_init` leaves free ranges that share no address, and
-- what they hold free is exactly the whole pages of the free entries up to KERNEL_SPACE.
pub init_ranges-Offered :
    (rs : List Region) (c : Context)
    → 1 ≤ c.base
    → c.ptr ≡ c.base
    → Ordered 0 rs
    → length rs ≤ 256
    → IsValid (init_ranges rs c)
      × ((a : ℕ) → IsFree (init_ranges rs c) a → Offered rs a)
      × ((a : ℕ) → Offered rs a → IsFree (init_ranges rs c) a)
init_ranges-Offered rs c base empty o few =
    let none_live : (k : ℕ) → Live c k → ⊥ = λ k live. omega (arith, live, empty) in
    let ready : Ready 0 c = record {
      valid = record {
        above_zero = base;
        ordered = omega (arith, empty);
        ranges = λ k live. absurd (none_live k live);
        disjoint = λ j k live live' ne. absurd (none_live j live);
      };
      ends = λ k live. absurd (none_live k live);
    } in
    let filled = from_Ready rs 0 c ready o (omega (arith, empty, few)) in
    (
      filled.valid,
      λ a free. elim (filled.only a free) [
        | inl (k, live, inside) ↦ absurd (none_live k live)
        | inr offered ↦ offered
      ],
      λ a offered. filled.all a (inr offered),
    )

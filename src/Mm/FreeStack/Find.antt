-- ===== src/Mm/FreeStack/Find.antt =====
-- `uvmm_find_freemem` hands out part of one free range.
use lizarx.Prelude.{
  ℕ, zero, suc, ◌+◌, ◌-◌, ◌%◌, ◌^◌, ◌≤◌, ◌<◌, ◌≡◌, ◌≢◌, ◌⊎◌, inl, inr, refl, ap, ltb, leb, ◌==◌,
  Bool-cases, if◌then◌else◌, arith, lt→ltb, dec_lt, ℕ_discrete,
}
use lizarx.Mm.FreeStack.{
  Entry, Context, width, scan, close, write, take_found, find_freemem, In, Live, IsFree, IsValid,
}

-- The loop stops at an entry that is wide enough, at `k` or above.
scan-hit :
    (stack : ℕ → Entry) (base pages cur free k : ℕ)
    → base ≤ k
    → k < cur
    → pages ≤ width (stack k)
    → let (c, w) = scan stack base pages cur free in
      (k ≤ c) × (c < cur) × (w ≡ width (stack c)) × (pages ≤ w)
unfolding scan
scan-hit stack base pages zero free k b lt fit = absurd (omega arith)
scan-hit stack base pages (suc cur) free k b lt fit = elim (dec_lt k cur) [
  | yes p ↦ ground (arith, scan-hit stack base pages cur (width (stack cur)) k b p fit)
  | no p ↦ let e : k ≡ cur = omega arith in ground arith
]

-- What a successful search did: the block was free and is no longer, nothing else was taken, and
-- nothing became free.
pub record Allocated (c : Context) (pages : ℕ) (r : ℕ × Context) : Type 0 where
  pub was_free : (a : ℕ) → r.0 ≤ a → a < r.0 + pages → IsFree c a
  pub taken : (a : ℕ) → r.0 ≤ a → a < r.0 + pages → ¬ IsFree r.1 a
  pub kept : (a : ℕ) → IsFree c a → (a < r.0) ⊎ (r.0 + pages ≤ a) → IsFree r.1 a
  pub no_more : (a : ℕ) → IsFree r.1 a → IsFree c a
  pub valid : IsValid r.1

-- A range that is one of the ranges of `c`, or what is left of one when a block was cut off its start.
abbrev pub Cut : Context → ℕ → Entry → Type 0
Cut c pages e =
    (i : ℕ) × Live c i
    × (e.end ≡ (c.stack i).end)
    × ((e.start ≡ (c.stack i).start) ⊎ (e.start ≡ (c.stack i).start + pages))

module _ (c : Context) (v : IsValid c) (k : ℕ) (live : Live c k) where
  -- Of two entries that hold an address both are one.
  In-unique : (j a : ℕ) → Live c j → In c j a → In c k a → j ≡ k
  In-unique j a lj i i' = elim (ℕ_discrete j k) [
    | yes e ↦ e
    | no ne ↦ absurd (ground (arith, v.disjoint j k lj live ne))
  ]

  -- The entry of the stack that entry `j` was before the gap at `k` was closed.
  abbrev old : ℕ → ℕ
  old j = if leb k j then j + 1 else j

  module _ (pages : ℕ) (fits : width (c.stack k) ≡ pages) where
    abbrev closed : Context
    closed = record c { ptr = c.ptr - 1; stack = close c.stack k c.ptr }

    old-Live : (j : ℕ) → Live closed j → Live c (old j) × (old j ≢ k)
    old-Live j l = ground arith

    stack-old : (j : ℕ) → Live closed j → close c.stack k c.ptr j ≡ c.stack (old j)
    unfolding close
    stack-old j l = ground arith

    In-old : (j a : ℕ) → Live closed j → In closed j a → In c (old j) a
    In-old j a l i = rw (stack-old j l) at i

    end_k : (c.stack k).end ≡ (c.stack k).start + pages
    end_k = ground (arith, v.ranges k live)

    abbrev new : ℕ → ℕ
    new j = if ltb k j then j - 1 else j

    new-Live :
        (j : ℕ)
        → Live c j
        → j ≢ k
        → Live closed (new j) × (close c.stack k c.ptr (new j) ≡ c.stack j)
    unfolding close
    new-Live j l ne = ground arith

    not_block :
        (j a : ℕ) → In c j a → (a < (c.stack k).start) ⊎ ((c.stack k).start + pages ≤ a) → j ≢ k
    not_block j a i (inl lo) e = omega (arith, let h : In c k a = rw e at i in h)
    not_block j a i (inr hi) e = omega (arith, end_k, let h : In c k a = rw e at i in h)

    closed-Allocated : Allocated c pages ((c.stack k).start, closed)
    closed-Allocated = record {
      was_free = λ a lo hi. (k, live, (lo, omega (arith, end_k)));
      taken = λ a lo hi (j, l, i).
          (old-Live j l).1
            (In-unique (old j) a (old-Live j l).0 (In-old j a l i) (lo, omega (arith, end_k)));
      kept = λ a (j, l, i) out.
          let (l', e) = new-Live j l (not_block j a i out) in (new j, l', rw e i);
      no_more = λ a (j, l, i). (old j, (old-Live j l).0, In-old j a l i);
      valid = record {
        above_zero = v.above_zero;
        ordered = omega (arith, v.ordered);
        ranges = λ j l. rw (stack-old j l) (v.ranges (old j) (old-Live j l).0);
        disjoint = λ i j li lj ne.
            rw (stack-old i li, stack-old j lj)
              (v.disjoint (old i) (old j) (old-Live i li).0 (old-Live j lj).0 (ground arith));
      };
    }

    closed-Cut : (j : ℕ) → Live closed j → Cut c pages (closed.stack j)
    closed-Cut j l = (
      old j,
      (old-Live j l).0,
      ap (λ e. e.end) (stack-old j l),
      inl (ap (λ e. e.start) (stack-old j l)),
    )

  module _ (pages : ℕ) (wider : pages < width (c.stack k)) where
    abbrev rest : Entry
    rest = record (c.stack k) { start = ((c.stack k).start + pages) % 2 ^ 64 }

    abbrev shrunk : Context
    shrunk = record c { stack = write c.stack k rest }

    rest_range :
        ((c.stack k).start + pages < (c.stack k).end) × (rest.start ≡ (c.stack k).start + pages)
    rest_range = ground (arith, v.ranges k live)

    In-shrunk : (j a : ℕ) → In shrunk j a → In c j a × (((c.stack k).start + pages ≤ a) ⊎ (j ≢ k))
    In-shrunk j a i = ground (arith, rest_range)

    shrunk-Allocated : Allocated c pages ((c.stack k).start, shrunk)
    shrunk-Allocated = record {
      was_free = λ a lo hi. (k, live, (lo, omega (arith, rest_range)));
      taken = λ a lo hi (j, l, i). elim (In-shrunk j a i).1 [
        | inl above ↦ omega arith
        | inr ne ↦ ne (In-unique j a l (In-shrunk j a i).0 (lo, omega (arith, rest_range)))
      ];
      kept = λ a (j, l, i) out. (j, l, ground (arith, rest_range));
      no_more = λ a (j, l, i). (j, l, (In-shrunk j a i).0);
      valid = record {
        above_zero = v.above_zero;
        ordered = v.ordered;
        ranges = λ j l. ground (arith, v.ranges j l, rest_range);
        disjoint = λ i j li lj ne. ground (arith, v.disjoint i j li lj ne, rest_range);
      };
    }

    shrunk-Cut : (j : ℕ) → Live shrunk j → Cut c pages (shrunk.stack j)
    shrunk-Cut j l = (j, l, ground arith, ground (arith, rest_range))

-- With a free range that is wide enough, `uvmm_find_freemem` returns the first address of a block that was
-- free, takes exactly that block out of the free addresses, and keeps the ranges apart.
pub find_freemem-Allocated :
    (c : Context) (pages k : ℕ)
    → IsValid c
    → Live c k
    → pages ≤ width (c.stack k)
    → Allocated c pages (find_freemem c pages)
unfolding find_freemem
find_freemem-Allocated c pages k v live fit =
    go (scan c.stack c.base pages c.ptr 0)
      (scan-hit c.stack c.base pages c.ptr 0 k live.0 live.1 fit)
  where
    go :
        (r : ℕ × ℕ)
        → (k ≤ r.0) × (r.0 < c.ptr) × (r.1 ≡ width (c.stack r.0)) × (pages ≤ r.1)
        → Allocated c pages (take_found c pages r)
    go (i, w) (lo, hi, e, enough) = elim (Bool-cases (w == pages)) [
      | inl exact ↦
          rw (take_found, exact)
            (closed-Allocated c v i (omega (arith, live), hi) pages (ground arith))
      | inr more ↦
          rw (take_found, more, lt→ltb pages w (ground arith))
            (shrunk-Allocated c v i (omega (arith, live), hi) pages (ground arith))
    ]

-- The block stands at the start of a range that is wide enough for it, and the ranges that are left are those that
-- were there, or the rest of one.
pub find_freemem-Cut :
    (c : Context) (pages k : ℕ)
    → IsValid c
    → Live c k
    → pages ≤ width (c.stack k)
    → ((i : ℕ) × Live c i
        × ((find_freemem c pages).0 ≡ (c.stack i).start)
        × (pages ≤ width (c.stack i)))
      × ((j : ℕ) → Live (find_freemem c pages).1 j → Cut c pages ((find_freemem c pages).1.stack j))
unfolding find_freemem
find_freemem-Cut c pages k v live fit =
    go (scan c.stack c.base pages c.ptr 0)
      (scan-hit c.stack c.base pages c.ptr 0 k live.0 live.1 fit)
  where
    go :
        (r : ℕ × ℕ)
        → (k ≤ r.0) × (r.0 < c.ptr) × (r.1 ≡ width (c.stack r.0)) × (pages ≤ r.1)
        → ((i : ℕ) × Live c i
            × ((take_found c pages r).0 ≡ (c.stack i).start)
            × (pages ≤ width (c.stack i)))
          × ((j : ℕ)
              → Live (take_found c pages r).1 j
              → Cut c pages ((take_found c pages r).1.stack j))
    go (i, w) (lo, hi, e, enough) = elim (Bool-cases (w == pages)) [
      | inl exact ↦
          rw (take_found, exact)
            (
              (i, omega (arith, live), refl, omega arith),
              closed-Cut c v i (omega (arith, live), hi) pages (ground arith),
            )
      | inr more ↦
          rw (take_found, more, lt→ltb pages w (ground arith))
            (
              (i, omega (arith, live), refl, omega arith),
              shrunk-Cut c v i (omega (arith, live), hi) pages (ground arith),
            )
    ]

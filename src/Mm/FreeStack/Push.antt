-- ===== src/Mm/FreeStack/Push.antt =====
-- `uvmm_push_free` against what `uvmm_find_freemem` offers.
use lizarx.Prelude.{
  ℕ, zero, suc, ◌+◌, ◌-◌, ◌%◌, ◌^◌, ◌≤◌, ◌<◌, ◌≡◌, ◌≢◌, ◌↔◌, ◌⊎◌, inl, inr, none, some, ◌==◌,
  if◌then◌else◌, arith, refl, ℕ_discrete, true, false,
}
use lizarx.Mm.FreeStack.{Entry, Context, write, merge, push_free, In, IsFree}

-- The range `page … page + len` begins where entry `k` ends.
abbrev pub EndsAt : Context → ℕ → ℕ → Type 0
EndsAt c page k = (c.stack k).end ≡ page

abbrev pub StartsAt : Context → ℕ → ℕ → Type 0
StartsAt c end k = (c.stack k).start ≡ end

-- No entry that the merging loop reads touches the range.
abbrev pub Apart : Context → ℕ → ℕ → Type 0
Apart c page len =
    (k : ℕ)
    → c.base < k
    → k ≤ c.ptr + 1
    → ¬ EndsAt c page k × ¬ StartsAt c ((page + len) % 2 ^ 64) k

merge-none :
    (stack : ℕ → Entry) (page len rounds cur : ℕ)
    → ((k : ℕ)
        → cur < k
        → k ≤ cur + rounds
        → ((stack k).end ≢ page) × ((stack k).start ≢ (page + len) % 2 ^ 64))
    → merge stack page len rounds cur ≡ none
unfolding merge
merge-none stack page len zero cur apart = refl
merge-none stack page len (suc rounds) cur apart = ground (
  arith,
  apart (cur + 1),
  merge-none stack page len rounds (cur + 1) (λ k lo hi. apart k (omega arith) (omega arith)),
)

-- What becomes free is what the old top slot holds.
push_free-IsFree :
    (c : Context) (page len : ℕ)
    → c.base ≤ c.ptr
    → Apart c page len
    → (a : ℕ) → IsFree (push_free c page len) a ↔ (IsFree c a ⊎ In c c.ptr a)
unfolding push_free
push_free-IsFree c page len le apart a =
    rw
      (
        merge-none c.stack page len (c.ptr + 1 - c.base) c.base
            (λ k lo hi. apart k lo (omega arith)),
        push_free,
      )
      (
        (λ (k, l, i). elim (ℕ_discrete k c.ptr) [
          | yes e ↦ inr (ground arith)
          | no ne ↦ inl (k, ground arith, ground arith)
        ]),
        (λ f. elim f [
          | inl (k, l, i) ↦ (k, ground arith, ground arith)
          | inr i ↦ (c.ptr, ground arith, ground arith)
        ]),
      )

-- Where no entry that the loop reads touches the freed range, `uvmm_push_free` raises the pointer, writes the range to the
-- slot that it then points to and no other, and what becomes free is not that range but what the old top slot holds.
pub push_free-Apart :
    (c : Context) (page len : ℕ)
    → c.base ≤ c.ptr
    → Apart c page len
    → let c' = push_free c page len in
      (c'.ptr ≡ c.ptr + 1)
      × (c'.stack (c.ptr + 1) ≡ record { start = page; end = (page + len) % 2 ^ 64 })
      × ((k : ℕ) → k ≢ c.ptr + 1 → c'.stack k ≡ c.stack k)
      × ((a : ℕ) → IsFree c' a ↔ (IsFree c a ⊎ In c c.ptr a))
unfolding push_free
push_free-Apart c page len le apart =
    let none_touches =
      merge-none c.stack page len (c.ptr + 1 - c.base) c.base
        (λ k lo hi. apart k lo (omega arith)) in
    let top : (c.ptr + 1 == c.ptr + 1) ≡ true = ground arith in
    (
      rw (none_touches, push_free) refl,
      rw (none_touches, push_free, top) refl,
      (λ k ne.
          let other : (k == c.ptr + 1) ≡ false = ground arith in
          rw (none_touches, push_free, other) refl),
      push_free-IsFree c page len le apart,
    )

-- The entry after the freed range is joined to it.
grown : ℕ → ℕ → Entry → Entry
grown page len e =
    if e.end == page then record e { end = (page + len) % 2 ^ 64 } else record e { start = page }

grown-In :
    (page len a : ℕ) (e : Entry)
    → page + len < 2 ^ 64
    → e.start ≤ e.end
    → (e.end ≡ page) ⊎ (e.start ≡ (page + len) % 2 ^ 64)
    → (((grown page len e).start ≤ a) × (a < (grown page len e).end))
      ↔ (((e.start ≤ a) × (a < e.end)) ⊎ ((page ≤ a) × (a < page + len)))
unfolding grown
grown-In page len a e small ord touch = (ground arith, ground arith)

merge-first :
    (stack : ℕ → Entry) (page len k rounds cur : ℕ)
    → cur < k
    → k ≤ cur + rounds
    → ((j : ℕ)
        → cur < j
        → j < k
        → ((stack j).end ≢ page) × ((stack j).start ≢ (page + len) % 2 ^ 64))
    → ((stack k).end ≡ page) ⊎ ((stack k).start ≡ (page + len) % 2 ^ 64)
    → merge stack page len rounds cur ≡ some (write stack k (grown page len (stack k)))
unfolding merge grown
merge-first stack page len k zero cur lo hi apart touch = absurd (omega arith)
merge-first stack page len k (suc rounds) cur lo hi apart touch = elim (ℕ_discrete k (cur + 1)) [
  | yes e ↦
      let t : ((stack (cur + 1)).end ≡ page) ⊎ ((stack (cur + 1)).start ≡ (page + len) % 2 ^ 64) =
        rw e at touch in
      rw e (ground arith)
  | no ne ↦ ground (
    arith,
    apart (cur + 1),
    merge-first stack page len k rounds (cur + 1) (omega arith) (omega arith)
        (λ j a b. apart j (omega arith) b) touch,
  )
]

-- Where the first entry that touches the freed range is one of the stack, the first one excepted, exactly the
-- range becomes free.
pub push_free-merge :
    (c : Context) (page len k : ℕ)
    → page + len < 2 ^ 64
    → c.base < k
    → k < c.ptr
    → (c.stack k).start ≤ (c.stack k).end
    → ((j : ℕ) → c.base < j → j < k → ¬ EndsAt c page j × ¬ StartsAt c ((page + len) % 2 ^ 64) j)
    → EndsAt c page k ⊎ StartsAt c ((page + len) % 2 ^ 64) k
    → (a : ℕ) → IsFree (push_free c page len) a ↔ (IsFree c a ⊎ ((page ≤ a) × (a < page + len)))
unfolding push_free
push_free-merge c page len k small lo hi ord apart touch a =
    rw
      (
        merge-first c.stack page len k (c.ptr + 1 - c.base) c.base lo (omega arith) apart touch,
        push_free,
      )
      (
        (λ (j, l, i). elim (ℕ_discrete j k) [
          | yes e ↦ elim (both.0 (rw (self j e) at i)) [
            | inl i' ↦ inl (k, (omega arith, hi), i')
            | inr b ↦ inr b
          ]
          | no ne ↦ inl (j, l, ground arith)
        ]),
        (λ f. elim f [
          | inl (j, l, i) ↦ (
            j,
            l,
            elim (ℕ_discrete j k) [
              | yes e ↦ rw (self j e) (both.1 (inl (rw e at i)))
              | no ne ↦ ground arith
            ],
          )
          | inr b ↦ (k, (omega arith, hi), rw (self k refl) (both.1 (inr b)))
        ]),
      )
  where
    both :
        (((grown page len (c.stack k)).start ≤ a) × (a < (grown page len (c.stack k)).end))
        ↔ (((c.stack k).start ≤ a × (a < (c.stack k).end)) ⊎ ((page ≤ a) × (a < page + len)))
    both = grown-In page len a (c.stack k) small ord touch

    self :
        (j : ℕ)
        → j ≡ k
        → write c.stack k (grown page len (c.stack k)) j ≡ grown page len (c.stack k)
    self j e = ground arith

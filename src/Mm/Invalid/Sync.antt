-- ===== src/Mm/Invalid/Sync.antt =====
-- Which ranges `sync_addr_space` gives back.
use Prim.Native.Nat.{bit_or}
use lizarx.Prelude.{
  ◌%◌, ◌^◌, ◌==◌, false, ℕ, zero, suc, ◌+◌, ◌-◌, ◌≤◌, ◌<◌, ◌≡◌, ◌≢◌, ◌⊎◌, inl, inr, refl, ap, sym,
  ◌∙◌, set, set-other, arith, ℕ_discrete,
}
use mathlib.Core.Path.{subst}
use lizarx.Mm.FreeStack.{Context, push_free}
use lizarx.Mm.Invalid.Visit.{Marks, visit-keeps, visit-gives, Marks-step}
use lizarx.Mm.Invalid.{ToInvalid, Release, marked, sync_from, sync_addr_space}

-- The ranges of the entries above `low`, up to `low + n`, are given back, the highest first.
abbrev pub given_back : (ℕ → ToInvalid) → ℕ → ℕ → Context → Context
given_back entries low zero c = c
given_back entries low (suc n) c =
    given_back entries low n (push_free c (entries (low + suc n)).virt (entries (low + suc n)).size)

-- What the loop did from the entry at the top down: `given` entries have left the stack.
pub record Synced (apic_id mask : ℕ) (s s' : Release) : Type 0 where
  pub given : ℕ
  pub left : s'.waiting.ptr + given ≡ s.waiting.ptr
  pub marks : Marks apic_id s.waiting.ptr s s'
  pub complete :
      (k : ℕ)
      → s'.waiting.ptr < k
      → k ≤ s.waiting.ptr
      → (marked apic_id (s.waiting.entries k)).cores_invalidated ≡ mask
  pub top :
      (s'.waiting.ptr ≡ 0)
      ⊎ ((marked apic_id (s.waiting.entries s'.waiting.ptr)).cores_invalidated ≢ mask)
  pub startup : s'.startup ≡ given_back s.waiting.entries s'.waiting.ptr given s.startup

-- Only marks were made.
record OnlyMarks (apic_id cur : ℕ) (s s' : Release) : Type 0 where
  marks : Marks apic_id cur s s'
  ptr : s'.waiting.ptr ≡ s.waiting.ptr
  startup : s'.startup ≡ s.startup

-- The state after a visit that gives nothing back.
abbrev only_marked : ℕ → ℕ → Release → Release
only_marked apic_id cur s = record s {
  waiting = record (s.waiting) {
    entries = set s.waiting.entries cur (marked apic_id (s.waiting.entries cur));
  };
}

-- Below the top of the stack nothing is given back.
below :
    (apic_id mask cur : ℕ) (s : Release)
    → cur < s.waiting.ptr
    → OnlyMarks apic_id cur s (sync_from apic_id mask cur s)
unfolding sync_from
below apic_id mask zero s lt = record {
  marks = record { entries = λ k a b. absurd (omega arith); other_entries = λ k o. refl };
  ptr = refl;
  startup = refl;
}
below apic_id mask (suc cur) s lt =
    let r = below apic_id mask cur (only_marked apic_id (suc cur) s) (omega arith) in
    rw (visit-keeps apic_id mask (suc cur) s (inl (omega arith))) record {
      marks =
          Marks-step apic_id cur s (only_marked apic_id (suc cur) s)
            (sync_from apic_id mask cur (only_marked apic_id (suc cur) s)) refl r.marks;
      ptr = r.ptr;
      startup = r.startup;
    }

-- The state after a visit that gives the entry at the top back.
abbrev top_given : ℕ → ℕ → Release → Release
top_given apic_id cur s = record {
  waiting = record {
    entries = set s.waiting.entries cur (marked apic_id (s.waiting.entries cur));
    ptr = s.waiting.ptr - 1;
  };
  startup = push_free s.startup (s.waiting.entries cur).virt (s.waiting.entries cur).size;
}

-- Ranges that other entries hold.
given_back-same :
    (f g : ℕ → ToInvalid) (low n : ℕ) (c : Context)
    → ((k : ℕ) → low < k → k ≤ low + n → f k ≡ g k)
    → given_back f low n c ≡ given_back g low n c
given_back-same f g low zero c h = refl
given_back-same f g low (suc n) c h = rw (h (low + suc n) (omega arith) (omega arith)) (
    given_back-same f g low n (push_free c (g (low + suc n)).virt (g (low + suc n)).size)
      (λ k a b. h k a (omega arith)))

module _ (apic_id mask cur : ℕ) (s : Release) (at : suc cur ≡ s.waiting.ptr) where
  same_below :
      (k : ℕ) → k ≤ cur → (top_given apic_id (suc cur) s).waiting.entries k ≡ s.waiting.entries k
  same_below k le =
      set-other s.waiting.entries (suc cur) (marked apic_id (s.waiting.entries (suc cur))) k
        (omega arith)

  given-Synced :
      (s' : Release)
      → (marked apic_id (s.waiting.entries (suc cur))).cores_invalidated ≡ mask
      → Synced apic_id mask (top_given apic_id (suc cur) s) s'
      → Synced apic_id mask s s'
  given-Synced s' done r = record {
    given = suc r.given;
    left = omega (arith, at, r.left);
    marks =
        subst (λ n. Marks apic_id n s s') at
          (Marks-step apic_id cur s (top_given apic_id (suc cur) s) s' refl (
            subst (λ n. Marks apic_id n (top_given apic_id (suc cur) s) s') (omega (arith, at))
              r.marks));
    complete = λ k a b. elim (ℕ_discrete k (suc cur)) [
      | yes top ↦ rw top done
      | no ne ↦
          ap (λ e. (marked apic_id e).cores_invalidated) (sym (same_below k (omega (arith, at))))
          ∙ r.complete k a (omega (arith, at))
    ];
    top = elim r.top [
      | inl none_left ↦ inl none_left
      | inr more ↦ inr (λ e. more (
          ap (λ e. (marked apic_id e).cores_invalidated)
            (same_below s'.waiting.ptr (omega (arith, at, r.left)))
          ∙ e))
    ];
    startup =
        r.startup
        ∙ given_back-same (top_given apic_id (suc cur) s).waiting.entries s.waiting.entries
            s'.waiting.ptr r.given (top_given apic_id (suc cur) s).startup
            (λ k a b. same_below k (omega (arith, at, r.left)))
        ∙ ap
            (λ k.
              given_back s.waiting.entries s'.waiting.ptr r.given
                (push_free s.startup (s.waiting.entries k).virt (s.waiting.entries k).size))
            (omega (arith, at, r.left));
  }

  kept-Synced :
      (s' : Release)
      → (marked apic_id (s.waiting.entries (suc cur))).cores_invalidated ≢ mask
      → OnlyMarks apic_id cur (only_marked apic_id (suc cur) s) s'
      → Synced apic_id mask s s'
  kept-Synced s' more r = record {
    given = 0;
    left = omega (arith, r.ptr);
    marks =
        subst (λ n. Marks apic_id n s s') at
          (Marks-step apic_id cur s (only_marked apic_id (suc cur) s) s' refl r.marks);
    complete = λ k a b. absurd (omega (arith, r.ptr));
    top = inr (λ e. more (
        ap (λ k. (marked apic_id (s.waiting.entries k)).cores_invalidated) (at ∙ sym (r.ptr)) ∙ e));
    startup = r.startup;
  }

-- At the top of the stack a complete entry is given back.
from_top :
    (apic_id mask cur : ℕ) (s : Release)
    → cur ≡ s.waiting.ptr
    → Synced apic_id mask s (sync_from apic_id mask cur s)
unfolding sync_from
from_top apic_id mask zero s at = record {
  given = 0;
  left = omega arith;
  marks = record { entries = λ k a b. absurd (omega arith); other_entries = λ k o. refl };
  complete = λ k a b. absurd (omega arith);
  top = inl (sym at);
  startup = refl;
}
from_top apic_id mask (suc cur) s at =
    elim (ℕ_discrete (marked apic_id (s.waiting.entries (suc cur))).cores_invalidated mask) [
      | yes done ↦ rw (visit-gives apic_id mask (suc cur) s at done) (
          given-Synced apic_id mask cur s at
            (sync_from apic_id mask cur (top_given apic_id (suc cur) s)) done
            (from_top apic_id mask cur (top_given apic_id (suc cur) s) (omega (arith, at))))
      | no more ↦ rw (visit-keeps apic_id mask (suc cur) s (inr more)) (
          kept-Synced apic_id mask cur s at
            (sync_from apic_id mask cur (only_marked apic_id (suc cur) s)) more
            (below apic_id mask cur (only_marked apic_id (suc cur) s) (omega (arith, at))))
    ]

-- `sync_addr_space` of a processor with an id below 31 marks every entry of the stack with the bit of that id. It gives
-- back, the highest first, the entries at the top of the stack that all processors have marked, and no others:
-- the entry that is then at the top lacks a mark, or none is left.
pub sync_addr_space-Synced :
    (apic_id all_cores_mask : ℕ) (s : Release)
    → apic_id < 31
    → Synced apic_id all_cores_mask s (sync_addr_space apic_id all_cores_mask s)
      × ((e : ToInvalid)
          → (marked apic_id e).cores_invalidated ≡ bit_or e.cores_invalidated (2 ^ apic_id))
unfolding sync_addr_space
sync_addr_space-Synced apic_id all_cores_mask s lt =
    let own : (apic_id % 32 == 31) ≡ false = ground arith in
    let count : apic_id % 32 ≡ apic_id = omega arith in
    (from_top apic_id all_cores_mask s.waiting.ptr s refl, λ e. rw (own, count) refl)

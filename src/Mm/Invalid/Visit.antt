-- ===== src/Mm/Invalid/Visit.antt =====
-- One visit of the loop of `sync_addr_space`, and the marks that it leaves.
use lizarx.Prelude.{
  ℕ, suc, ◌-◌, ◌≤◌, ◌<◌, ◌≡◌, ◌≢◌, ◌⊎◌, inr, refl, ap, ◌∙◌, true, ◌==◌, set, set-same, set-other,
  arith, ℕ_discrete,
}
use lizarx.Mm.FreeStack.{push_free}
use lizarx.Mm.Invalid.{Release, marked, visit}

-- The entries that the loop goes over are marked, and the others stay as they are.
pub record Marks (apic_id cur : ℕ) (s s' : Release) : Type 0 where
  pub entries :
      (k : ℕ) → 0 < k → k ≤ cur → s'.waiting.entries k ≡ marked apic_id (s.waiting.entries k)
  pub other_entries : (k : ℕ) → (k ≡ 0) ⊎ (cur < k) → s'.waiting.entries k ≡ s.waiting.entries k

pub visit-keeps :
    (apic_id mask cur : ℕ) (s : Release)
    → (cur ≢ s.waiting.ptr) ⊎ ((marked apic_id (s.waiting.entries cur)).cores_invalidated ≢ mask)
    → visit apic_id mask cur s ≡ record s {
      waiting = record (s.waiting) {
        entries = set s.waiting.entries cur (marked apic_id (s.waiting.entries cur));
      };
    }
unfolding visit
visit-keeps apic_id mask cur s ne = ground arith

pub visit-gives :
    (apic_id mask cur : ℕ) (s : Release)
    → cur ≡ s.waiting.ptr
    → (marked apic_id (s.waiting.entries cur)).cores_invalidated ≡ mask
    → visit apic_id mask cur s ≡ record {
      waiting = record {
        entries = set s.waiting.entries cur (marked apic_id (s.waiting.entries cur));
        ptr = s.waiting.ptr - 1;
      };
      startup = push_free s.startup (s.waiting.entries cur).virt (s.waiting.entries cur).size;
    }
unfolding visit
visit-gives apic_id mask cur s at done =
    let e : (cur == s.waiting.ptr) ≡ true = ground arith in
    let d : ((marked apic_id (s.waiting.entries cur)).cores_invalidated == mask) ≡ true =
      ground arith in
    rw (d, e) refl

pub Marks-step :
    (apic_id cur : ℕ) (s s1 s' : Release)
    → s1.waiting.entries
      ≡ set s.waiting.entries (suc cur) (marked apic_id (s.waiting.entries (suc cur)))
    → Marks apic_id cur s1 s'
    → Marks apic_id (suc cur) s s'
Marks-step apic_id cur s s1 s' e m = record {
  entries = λ k above le. elim (ℕ_discrete k (suc cur)) [
    | yes top ↦
        m.other_entries k (inr (omega (arith, top)))
        ∙ ap (λ f. f k) e
        ∙ rw top
            (set-same s.waiting.entries (suc cur) (marked apic_id (s.waiting.entries (suc cur))))
    | no ne ↦
        m.entries k above (omega arith)
        ∙ ap (λ f. marked apic_id (f k)) e
        ∙ ap (marked apic_id) (
            set-other s.waiting.entries (suc cur) (marked apic_id (s.waiting.entries (suc cur))) k
              ne)
  ];
  other_entries = λ k out.
      m.other_entries k (omega (arith, out))
      ∙ ap (λ f. f k) e
      ∙ set-other s.waiting.entries (suc cur) (marked apic_id (s.waiting.entries (suc cur))) k
          (omega (arith, out));
}

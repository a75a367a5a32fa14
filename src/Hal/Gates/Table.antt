-- ===== src/Hal/Gates/Table.antt =====
-- The gates after `init_idt`.
use lizarx.Prelude.{
  ℕ, ◌+◌, ◌*◌, ◌/◌, ◌%◌, ◌^◌, ◌<◌, ◌≡◌, refl, ap, ◌∙◌, true, false, ◌||◌, ◌==◌, List, [], ◌∷◌,
  if◌then◌else◌, arith, Bool, sym, set, Bool-cases, inl, inr,
}
use mathlib.Core.Path.{subst}
use lizarx.AList.Contents.{has}
use lizarx.Hal.Gates.{
  IdtEntry, gate, gdt_kernel_code_segment, gate_flags, idt_flag_ring0, set_gates, interrupts,
  init_idt,
}

abbrev pub ring0_gate : ℕ → IdtEntry
ring0_gate handler = gate handler gdt_kernel_code_segment (gate_flags idt_flag_ring0)

set_gates-has :
    (stub : ℕ → ℕ) (is : List ℕ) (idt : ℕ → IdtEntry) (i : ℕ)
    → set_gates stub is idt i ≡ (if has is i then ring0_gate (stub i) else idt i)
unfolding set_gates
set_gates-has stub [] idt i = refl
set_gates-has stub (x ∷ is) idt i =
    set_gates-has stub is (set idt x (ring0_gate (stub x))) i ∙ ground arith

-- Who may call a gate, and whom it calls.
abbrev pub privilege : IdtEntry → ℕ
privilege e = e.flags / 2 ^ 5 % 2 ^ 2

abbrev pub handler_of : IdtEntry → ℕ
handler_of e = e.isr_offset + e.isr_offset2 * 2 ^ 16

abbrev pub ring3_gate : ℕ → IdtEntry
ring3_gate handler = gate handler gdt_kernel_code_segment (gate_flags 0x60)

abbrev pub no_gate : IdtEntry
no_gate = record { isr_offset = 0; selector = 0; ist = 0; flags = 0; isr_offset2 = 0 }

handler_of-gate : (h : ℕ) → h < 2 ^ 64 → h % 2 ^ 16 + h / 2 ^ 16 % 2 ^ 48 * 2 ^ 16 ≡ h
handler_of-gate h lt = omega arith

-- What an entry of the table must be: `own` for an interrupt of the kernel, `call` for the system call.
abbrev pub IsGate : ℕ → Bool → Bool → IdtEntry → Type 0
IsGate h own call e =
    ((own || call) ≡ true → (handler_of e ≡ h) × (e.selector ≡ gdt_kernel_code_segment))
    × ((own || call) ≡ false → e ≡ no_gate)
    × (privilege e ≡ (if call then 3 else 0))

choice-IsGate :
    (h : ℕ) (own call : Bool)
    → h < 2 ^ 64
    → IsGate h own call (if call then ring3_gate h else if own then ring0_gate h else no_gate)
choice-IsGate h true true lt = ((λ _. (handler_of-gate h lt, refl)), (λ eq. ground arith), refl)
choice-IsGate h true false lt = ((λ _. (handler_of-gate h lt, refl)), (λ eq. ground arith), refl)
choice-IsGate h false true lt = ((λ _. (handler_of-gate h lt, refl)), (λ eq. ground arith), refl)
choice-IsGate h false false lt = ((λ eq. ground arith), (λ _. refl), refl)

init_idt-choice :
    (stub : ℕ → ℕ) (i : ℕ)
    → (if i == 48
        then ring3_gate (stub i)
        else if has (interrupts stub) i
        then ring0_gate (stub i)
        else no_gate)
      ≡ init_idt stub (λ _. no_gate) i
unfolding init_idt
init_idt-choice stub i = elim (Bool-cases (i == 48)) [
  | inl e ↦ let same : i ≡ 48 = ground arith in rw e (ap (λ k. ring3_gate (stub k)) same)
  | inr e ↦ rw e (sym (set_gates-has stub (interrupts stub) (λ _. no_gate) i))
]

-- After `init_idt` on a table without gates, each of its interrupts calls its own entry point in the code of the kernel,
-- the system call is the only one that a program may call, and no other entry has a gate.
pub init_idt-Gates :
    (stub : ℕ → ℕ) (i : ℕ)
    → stub i < 2 ^ 64
    → IsGate (stub i) (has (interrupts stub) i) (i == 48) (init_idt stub (λ _. no_gate) i)
init_idt-Gates stub i lt =
    subst (IsGate (stub i) (has (interrupts stub) i) (i == 48)) (init_idt-choice stub i)
      (choice-IsGate (stub i) (has (interrupts stub) i) (i == 48) lt)

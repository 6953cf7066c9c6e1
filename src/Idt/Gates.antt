-- ===== src/Idt/Gates.antt =====
-- The table that idt_init of kernel/idt.c makes.
use waltex.Base.{
  ltb, leb, ◌==◌, if◌then◌else◌, ==→eq, Bool-cases, length, get_or, set, length-set,
  get_or-set_self, get_or-set_ne, ℕ, zero, suc, ◌+◌, ◌*◌, ◌%◌, ◌^◌, ◌≤◌, ◌<◌, ◌≡◌, refl, ◌∙◌, inl,
  inr, true, false, ◌&&◌, List, arith,
}
use waltex.Idt.{
  IdtGate, idt_gate, init, set_gates, idt_set_gate, idt_entries, absent, irq_base, gate_interrupt32,
  gdt_sel_code,
}

-- The address that the processor reads from a gate.
abbrev pub offset_of : IdtGate → ℕ
offset_of g = g.offset_low + 2 ^ 16 * g.offset_high

set_gates-gate :
    (handler : ℕ → ℕ) (type_attr : ℕ) (idt : List IdtGate) (i n j : ℕ)
    → i + n ≤ length idt
    → get_or (set_gates handler type_attr idt i n) j absent
      ≡ (if leb i j && ltb j (i + n) then idt_gate (handler j) type_attr else get_or idt j absent)
unfolding set_gates idt_set_gate
set_gates-gate handler type_attr idt i zero j room =
    let none_here : (leb i j && ltb j (i + 0)) ≡ false = ground arith in rw none_here refl
set_gates-gate handler type_attr idt i (suc n) j room =
    let rest =
      set_gates-gate handler type_attr (set idt i (idt_gate (handler i) type_attr)) (i + 1) n j
        (omega (arith, length-set idt i (idt_gate (handler i) type_attr))) in
    rest ∙ elim (Bool-cases (i == j)) [
      | inl here ↦
          let same : i ≡ j = ==→eq i j here in
          let after : (leb (i + 1) j && ltb j (i + 1 + n)) ≡ false = ground arith in
          let inside : (leb i j && ltb j (i + suc n)) ≡ true = ground arith in
          rw (after, inside, ← same)
            (get_or-set_self idt i (idt_gate (handler i) type_attr) absent (omega arith))
      | inr away ↦
          let tests : (leb (i + 1) j && ltb j (i + 1 + n)) ≡ (leb i j && ltb j (i + suc n)) =
            ground arith in
          rw
            (
              tests,
              get_or-set_ne idt i j (idt_gate (handler i) type_attr) absent (λ e. ground arith),
            )
            refl
    ]

length-set_gates :
    (handler : ℕ → ℕ) (type_attr : ℕ) (idt : List IdtGate) (i n : ℕ)
    → length (set_gates handler type_attr idt i n) ≡ length idt
unfolding set_gates idt_set_gate
length-set_gates handler type_attr idt i zero = refl
length-set_gates handler type_attr idt i (suc n) =
    length-set_gates handler type_attr (set idt i (idt_gate (handler i) type_attr)) (i + 1) n
    ∙ length-set idt i (idt_gate (handler i) type_attr)

-- In the table of 256 gates that idt_init makes, each of the first 48 vectors is present and leads
-- to the address of its stub, in the segment of the code; every other one is not present.
pub init-gates :
    (stub : List ℕ) (idt : List IdtGate) (vec : ℕ)
    → length idt ≡ idt_entries
    → vec < idt_entries
    → let gate = get_or (init stub idt) vec absent in
      (gate.type_attr ≡ (if ltb vec 48 then gate_interrupt32 else 0))
      × (offset_of gate ≡ (if ltb vec 48 then get_or stub vec 0 % 2 ^ 32 else 0))
      × (gate.selector ≡ gdt_sel_code)
      × (length (init stub idt) ≡ idt_entries)
unfolding init idt_gate
init-gates stub idt vec size lt =
    let off = set_gates (λ i. 0) 0 idt 0 idt_entries in
    let whole : length off ≡ idt_entries = length-set_gates (λ i. 0) 0 idt 0 idt_entries ∙ size in
    let first = set_gates-gate (λ i. 0) 0 idt 0 idt_entries vec (omega arith) in
    let last =
      set_gates-gate (λ i. get_or stub i 0) gate_interrupt32 off 0 (irq_base + 16) vec
        (omega arith) in
    let all : (leb 0 vec && ltb vec (0 + idt_entries)) ≡ true = ground arith in
    let kept : length (init stub idt) ≡ idt_entries =
      length-set_gates (λ i. get_or stub i 0) gate_interrupt32 off 0 (irq_base + 16) ∙ whole in
    elim (Bool-cases (ltb vec 48)) [
      | inl stubbed ↦
          let test : (leb 0 vec && ltb vec (0 + (irq_base + 16))) ≡ true = ground arith in
          let gate : get_or (init stub idt) vec absent
              ≡ idt_gate (get_or stub vec 0) gate_interrupt32 =
            last ∙ rw test refl in
          rw (gate, stubbed) (refl, omega arith, refl, kept)
      | inr spare ↦
          let test : (leb 0 vec && ltb vec (0 + (irq_base + 16))) ≡ false = ground arith in
          let gate : get_or (init stub idt) vec absent ≡ idt_gate 0 0 =
            last ∙ rw (test, first, all) refl in
          rw (gate, spare) (refl, refl, refl, kept)
    ]

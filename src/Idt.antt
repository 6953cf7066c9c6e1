-- ===== src/Idt.antt =====
-- kernel/idt.c, include/idt.h: the gates, and where an interrupt goes. The stubs of the entry points
-- are addresses, and a handler is what it makes of a world `W`.
pub mod Gates
mod Examples
use waltex.Base.{
  ltb, leb, if◌then◌else◌, get_or, set, ℕ, zero, suc, ◌+◌, ◌-◌, ◌/◌, ◌%◌, ◌^◌, ◌&&◌, Option, none,
  some, List,
}
use waltex.Pic.{eoi}
use waltex.Ports.{Ports}

-- IDT_ENTRIES, IRQ_BASE, GATE_INTERRUPT32, GDT_SEL_CODE
abbrev pub idt_entries : ℕ
idt_entries = 256

abbrev pub irq_base : ℕ
irq_base = 32

abbrev pub gate_interrupt32 : ℕ
gate_interrupt32 = 0x8e

abbrev pub gdt_sel_code : ℕ
gdt_sel_code = 0x08

-- struct idt_gate; the field `zero` is `reserved` here.
pub record IdtGate : Type 0 where
  pub offset_low : ℕ
  pub selector : ℕ
  pub reserved : ℕ
  pub type_attr : ℕ
  pub offset_high : ℕ

-- What idt_set_gate stores for a handler at an address.
unfoldable pub idt_gate : ℕ → ℕ → IdtGate
idt_gate off type_attr = record {
  offset_low = off % 2 ^ 16;
  selector = gdt_sel_code;
  reserved = 0;
  type_attr = type_attr;
  offset_high = off / 2 ^ 16 % 2 ^ 16;
}

abbrev pub absent : IdtGate
absent = record { offset_low = 0; selector = 0; reserved = 0; type_attr = 0; offset_high = 0 }

-- idt_set_gate
unfoldable pub idt_set_gate : List IdtGate → ℕ → ℕ → ℕ → List IdtGate
idt_set_gate idt vec off type_attr = set idt vec (idt_gate off type_attr)

-- The two loops of idt_init, over the `n` gates from `i` on: the gate of each has the address that
-- `handler` gives.
unfoldable pub set_gates : (ℕ → ℕ) → ℕ → List IdtGate → ℕ → ℕ → List IdtGate
unfolding idt_set_gate
set_gates handler type_attr idt i zero = idt
set_gates handler type_attr idt i (suc n) =
    set_gates handler type_attr (idt_set_gate idt i (handler i) type_attr) (i + 1) n

-- idt_init before it loads the table; `stub` has the 48 entry points.
unfoldable pub init : List ℕ → List IdtGate → List IdtGate
unfolding set_gates
init stub idt =
    set_gates (λ i. get_or stub i 0) gate_interrupt32 (set_gates (λ i. 0) 0 idt 0 idt_entries) 0
      (irq_base + 16)

-- exc_handlers and irq_handlers; `none` is a null pointer.
pub record Handlers (W : Type 0) : Type 0 where
  pub exc : List (Option (W → W))
  pub irq : List (Option (W → W))

-- How isr_handler ends: it returns, panic_regs stops the machine, or it has reported the vector with
-- kprintf.
pub data Isr (W : Type 0) : Type 0 where
  returned : W → Isr W
  panicked : W → Isr W
  reported : ℕ → W → Isr W

-- exception_name, over the table of names of kernel/exceptions.c
unfoldable pub exception_name : List (List ℕ) → List ℕ → ℕ → List ℕ
exception_name names unnamed vec = if ltb vec 32 then get_or names vec unnamed else unnamed

module _ {W : Type 0} where
  -- exception_register and irq_register; `none` is a failed assert.
  unfoldable pub exception_register : Handlers W → ℕ → Option (W → W) → Option (Handlers W)
  exception_register h vec handler =
      if ltb vec 32 then some (record h { exc = set h.exc vec handler }) else none

  unfoldable pub irq_register : Handlers W → ℕ → Option (W → W) → Option (Handlers W)
  irq_register h irq handler =
      if ltb irq 16 then some (record h { irq = set h.irq irq handler }) else none

  -- An exception that nobody handles is a panic, and an interrupt is not.
  abbrev pub handle_exception : Option (W → W) → W → Isr W
  handle_exception none w = panicked w
  handle_exception (some handler) w = returned (handler w)

  abbrev pub handle_irq : Option (W → W) → W → Isr W
  handle_irq none w = returned w
  handle_irq (some handler) w = returned (handler w)

  -- isr_handler, on the vector of the saved state
  unfoldable pub isr_handler : Ports W → Handlers W → ℕ → W → Isr W
  isr_handler ports h vec w =
      let irq = (vec - irq_base) % 2 ^ 8 in
      if ltb vec 32
      then handle_exception (get_or h.exc vec none) w
      else if leb irq_base vec && ltb vec (irq_base + 16)
      then handle_irq (get_or h.irq irq none) (eoi ports irq w)
      else reported vec w

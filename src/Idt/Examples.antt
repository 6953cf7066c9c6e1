-- ===== src/Idt/Examples.antt =====
-- kernel/idt.c with 48 stubs.
use waltex.Base.{
  ltb, if◌then◌else◌, length, get_or, replicate, ℕ, ◌%◌, ◌^◌, ◌≡◌, refl, none, some, List, [], ◌∷◌,
  ◌++◌, arith,
}
use waltex.Idt.{
  Handlers, isr_handler, IdtGate, absent, init, returned, panicked, reported, gate_interrupt32,
  gdt_sel_code, idt_entries,
}
use waltex.Idt.Gates.{init-gates, offset_of}
use waltex.Pic.{eoi}
use waltex.Ports.{Ports}

abbrev stubs : List ℕ
stubs = replicate 48 0x00101234

abbrev blank_table : List IdtGate
blank_table = replicate 256 absent

init-gates_run :
    let gate = get_or (init stubs blank_table) 33 absent in
    (gate.type_attr ≡ (if ltb 33 48 then gate_interrupt32 else 0))
    × (offset_of gate ≡ (if ltb 33 48 then get_or stubs 33 0 % 2 ^ 32 else 0))
    × (gate.selector ≡ gdt_sel_code)
    × (length (init stubs blank_table) ≡ idt_entries)
init-gates_run = init-gates stubs blank_table 33 refl (omega arith)

-- A world that remembers what is written to the ports, and 0 for a call of a handler.
abbrev logged : Ports (List ℕ)
logged = record {
  inb = λ port w. (0, w);
  outb = λ port v w. port ∷ w;
  insw = λ port count w. ([], w);
  outsw = λ port bytes w. w;
}

abbrev one_handler : Handlers (List ℕ)
one_handler = record {
  exc = replicate 32 none;
  irq = replicate 14 none ++ (some (λ w. 0 ∷ w) ∷ none ∷ []);
}

-- The end of the interrupt is sent to both chips before the handler runs, and also where there is
-- none; an exception is a panic, and another vector is reported.
dispatched :
    (isr_handler logged one_handler 46 [] ≡ returned (0 ∷ 0x20 ∷ 0xa0 ∷ []))
    × (isr_handler logged one_handler 33 [] ≡ returned (0x20 ∷ []))
    × (isr_handler logged one_handler 13 [] ≡ panicked [])
    × (isr_handler logged one_handler 128 [] ≡ reported 128 [])
unfolding isr_handler eoi
dispatched = (refl, refl, refl, refl)

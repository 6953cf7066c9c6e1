-- ===== src/Gdt/Examples.antt =====
-- kernel/gdt.c on the segments of the kernel.
use waltex.Base.{◌^◌, ◌<◌, ◌≡◌, arith}
use waltex.Gdt.{gdt_entry}
use waltex.Gdt.Fields.{gdt_entry-fields, base_of, limit_of, flags_of}

gdt_entry-fields_run :
    let e = gdt_entry 0x12345678 0xfffff 0x9a 0xc in
    (base_of e ≡ 0x12345678)
    × (limit_of e ≡ 0xfffff)
    × (flags_of e ≡ 0xc)
    × (e.access ≡ 0x9a)
    × (e.limit_high_flags < 2 ^ 8)
gdt_entry-fields_run =
    gdt_entry-fields 0x12345678 0xfffff 0x9a 0xc (omega arith) (omega arith) (omega arith)

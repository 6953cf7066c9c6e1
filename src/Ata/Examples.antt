-- ===== src/Ata/Examples.antt =====
-- kernel/ata.c on an empty channel, and the registers of one request.
use waltex.Base.{ℕ, ◌+◌, ◌/◌, ◌%◌, ◌^◌, ◌<◌, ◌≡◌, refl, true, false, [], arith}
use waltex.Ata.{range_ok, drive_register, lba_lo, lba_mid, lba_hi}
use waltex.Ata.Absent.{init-floating}
use waltex.Ata.Registers.{drive_register-address, address_of}
use waltex.Ata.Transfer.{init}
use waltex.Ports.{Ports}

abbrev no_chips : Ports ℕ
no_chips = record {
  inb = λ port w. (0xff, w);
  outb = λ port v w. w + 1;
  insw = λ port count w. ([], w);
  outsw = λ port bytes w. w;
}

init-floating_run : (init no_chips 0).0 ≡ []
init-floating_run = init-floating no_chips (λ port w. refl) 0

drive_register-address_example :
    let reg = drive_register 1 0x0abcdef1 in
    (address_of reg (lba_lo 0x0abcdef1) (lba_mid 0x0abcdef1) (lba_hi 0x0abcdef1) ≡ 0x0abcdef1)
    × (reg / 2 ^ 4 % 2 ≡ 1)
    × (reg / 2 ^ 5 ≡ 7)
    × (reg < 2 ^ 8)
drive_register-address_example = drive_register-address 1 0x0abcdef1 (omega arith) (omega arith)

-- The last sector, and a sum that would go round at 2^32.
at_the_end :
    (range_ok 2048 2047 1 ≡ true)
    × (range_ok 2048 2047 2 ≡ false)
    × (range_ok 2048 0xffffffff 2 ≡ false)
unfolding range_ok
at_the_end = (refl, refl, refl)

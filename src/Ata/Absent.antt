-- ===== src/Ata/Absent.antt =====
-- kernel/ata.c on a channel without a disk.
use waltex.Base.{◌==◌, ℕ, zero, suc, ◌+◌, ◌≡◌, refl, Bool, true, false, none, List, [], arith}
use waltex.Ata.{
  present, identify_command, sr_bsy, ata_timeout, primary_base, primary_ctrl, ata_max_drives,
  ata_wait, identify, after_busy,
}
use waltex.Ata.Transfer.{init, find_drives, Drive}
use waltex.Ports.{Ports}

module _ {W : Type 0} (ports : Ports W)
    (floating : (port : ℕ) (w : W) → (ports.inb port w).0 ≡ 0xff) where
  -- The bits for an error are set as well, so that the wait ends at the first read.
  ata_wait-floating :
      (ctrl mask val limite : ℕ) (w : W) → (ata_wait ports ctrl mask val limite w).0 ≡ false
  unfolding ata_wait
  ata_wait-floating ctrl mask val zero w = refl
  ata_wait-floating ctrl mask val (suc limite) w = rw (floating ctrl w) refl

  after_busy-failed :
      (base ctrl : ℕ) (p : Bool × W) → p.0 ≡ false → (after_busy ports base ctrl p).0 ≡ none
  after_busy-failed base ctrl (true, w) e = absurd (ground arith)
  after_busy-failed base ctrl (false, w) e = refl

  present-floating : (base ctrl : ℕ) (p : ℕ × W) → p.0 ≡ 0xff → (present ports base ctrl p).0 ≡ none
  present-floating base ctrl (st, w) e =
      let some_status : (st == 0) ≡ false = ground arith in
      rw some_status (
        after_busy-failed base ctrl (ata_wait ports ctrl sr_bsy 0 ata_timeout w)
          (ata_wait-floating ctrl sr_bsy 0 ata_timeout w))

  identify-floating : (base ctrl drive : ℕ) (w : W) → (identify ports base ctrl drive w).0 ≡ none
  unfolding identify
  identify-floating base ctrl drive w =
      present-floating base ctrl (ports.inb (base + 7) (identify_command ports base ctrl drive w))
        (floating (base + 7) (identify_command ports base ctrl drive w))

  find_drives-floating :
      (drives : List Drive) (d k : ℕ) (w : W) → (find_drives ports drives d k w).0 ≡ drives
  unfolding find_drives
  find_drives-floating drives d zero w = refl
  find_drives-floating drives d (suc k) w =
      rw (find_drives, identify-floating primary_base primary_ctrl d w)
        (find_drives-floating drives (d + 1) k (identify ports primary_base primary_ctrl d w).1)

  -- Where no chip answers and every port reads 0xff, ata_init returns and finds no drive.
  pub init-floating : (w : W) → (init ports w).0 ≡ []
  unfolding init
  init-floating w = find_drives-floating [] 0 ata_max_drives w

-- ===== src/Pic.antt =====
-- kernel/pic.c, include/pic.h: the two interrupt controllers.
pub mod Lines
mod Examples
use waltex.Base.{ltb, leb, if◌then◌else◌, ℕ, ◌-◌, Bool}
use waltex.Bits.{set_bit, clear_bit}
use waltex.Ports.{Ports}

-- PIC_MASTER_CMD, PIC_MASTER_DATA, PIC_SLAVE_CMD, PIC_SLAVE_DATA
abbrev pub master_cmd : ℕ
master_cmd = 0x20

abbrev pub master_data : ℕ
master_data = 0x21

abbrev pub slave_cmd : ℕ
slave_cmd = 0xa0

abbrev pub slave_data : ℕ
slave_data = 0xa1

-- `porta` and `bit` of pic_mask
abbrev pub data_port : ℕ → ℕ
data_port irq = if ltb irq 8 then master_data else slave_data

abbrev pub line_bit : ℕ → ℕ
line_bit irq = if ltb irq 8 then irq else irq - 8

-- The byte that pic_mask writes.
abbrev pub new_mask : Bool → ℕ → ℕ → ℕ
new_mask masked maschera bit = if masked then set_bit maschera bit else clear_bit maschera bit

module _ {W : Type 0} (ports : Ports W) where
  -- pic_init
  unfoldable pub init : W → W
  init w =
      let w = ports.outb master_cmd 0x11 w in
      let w = ports.outb slave_cmd 0x11 w in
      let w = ports.outb master_data 0x20 w in
      let w = ports.outb slave_data 0x28 w in
      let w = ports.outb master_data 0x04 w in
      let w = ports.outb slave_data 0x02 w in
      let w = ports.outb master_data 0x01 w in
      let w = ports.outb slave_data 0x01 w in
      let w = ports.outb master_data 0xfb w in ports.outb slave_data 0xff w

  -- pic_eoi. PIC_EOI is 0x20.
  unfoldable pub eoi : ℕ → W → W
  eoi irq w =
      let w' = if leb 8 irq then ports.outb slave_cmd 0x20 w else w in ports.outb master_cmd 0x20 w'

  -- pic_mask, for a line below 16
  unfoldable pub mask : ℕ → Bool → W → W
  mask irq masked w =
      let (maschera, w') = ports.inb (data_port irq) w in
      ports.outb (data_port irq) (new_mask masked maschera (line_bit irq)) w'

-- ===== src/Blockdev.antt =====
-- include/blockdev.h: what a device that is read and written by sectors offers.
use waltex.Base.{ℕ, Option, List}

-- SECTOR_SIZE
abbrev pub sector_size : ℕ
sector_size = 512

-- struct blockdev, over a state `D` of the device: `read` gives the bytes of the sectors that it
-- read, `write` how many sectors it wrote. A null pointer is `none`.
pub record BlockDev (D : Type 0) : Type 0 where
  pub nsectors : ℕ
  pub read : Option (D → ℕ → ℕ → Option (List ℕ))
  pub write : Option (D → ℕ → ℕ → List ℕ → ℕ × D)

-- ===== src/Ports.antt =====
-- include/io.h: the instructions for the ports, as operations on a world `W`, the hardware behind
-- them. `insw` gives the bytes of `count` words, and `outsw` takes them.
use waltex.Base.{ℕ, List}

pub record Ports (W : Type 0) : Type 0 where
  pub inb : ℕ → W → ℕ × W
  pub outb : ℕ → ℕ → W → W
  pub insw : ℕ → ℕ → W → List ℕ × W
  pub outsw : ℕ → List ℕ → W → W

-- ===== src/Timer/Examples.antt =====
-- kernel/timer.c at the frequency of the kernel, and at the ends.
use waltex.Base.{◌≡◌, refl}
use waltex.Timer.{pit_divisor}
use waltex.Timer.Divisor.{pit_divisor-Nearest, Nearest}

at_the_ends : (pit_divisor 0 ≡ 65535) × (pit_divisor 19 ≡ 62799) × (pit_divisor 2000000 ≡ 1)
unfolding pit_divisor
at_the_ends = (refl, refl, refl)

pit_divisor-Nearest_example : Nearest 100 (pit_divisor 100)
pit_divisor-Nearest_example = pit_divisor-Nearest 100

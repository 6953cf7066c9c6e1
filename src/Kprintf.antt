-- ===== src/Kprintf.antt =====
-- kernel/kprintf.c: numbers, formats and the sinks that they are printed to.
pub mod Reverse
pub mod Digits
pub mod Print
pub mod Number
pub mod Hex
pub mod Numerals
pub mod Format
pub mod Related
pub mod Buffer
pub mod Prints
pub mod Directives
mod Examples
use waltex.Base.{
  ltb, leb, ◌==◌, if◌then◌else◌, get_or, set, replicate, ℕ, zero, suc, ◌+◌, ◌-◌, ◌/◌, ◌%◌, ◌^◌,
  Bool, ◌&&◌, List,
}

-- The loop of reverse, with a bound on its rounds.
unfoldable pub reverse_loop : ℕ → List ℕ → ℕ → ℕ → List ℕ
reverse_loop zero str start end = str
reverse_loop (suc k) str start end =
    let rest =
      reverse_loop k (set (set str start (get_or str end 0)) end (get_or str start 0)) (start + 1)
        (end - 1) in
    if ltb start end then rest else str

-- reverse. `end` is -1 in the source where the length is 0, and the loop does not run then either.
unfoldable pub reverse : List ℕ → ℕ → List ℕ
unfolding reverse_loop
reverse str n = reverse_loop n str 0 (n - 1)

-- `(rem > 9) ? (rem - 10) + 'a' : rem + '0'`
abbrev pub digit_char : ℕ → ℕ
digit_char rem = if ltb 9 rem then rem - 10 + b'a' else rem + b'0'

-- The loop of put_uint that writes the digits, the last one first: the array and `i` after it.
unfoldable pub digit_loop : ℕ → List ℕ → ℕ → ℕ → ℕ → List ℕ × ℕ
digit_loop zero str i value base = (str, i)
digit_loop (suc k) str i value base =
    let rest = digit_loop k (set str i (digit_char (value % base))) (i + 1) (value / base) base in
    if value == 0 then (str, i) else rest

-- `((int32_t)value) < 0 && base == 10`
abbrev pub is_negative : ℕ → ℕ → Bool
is_negative value base = leb (2 ^ 31) value && base == 10

-- A sink: what it has taken so far, and what one character makes of it.
module _ {S : Type 0} (put : S → ℕ → S) where
  -- The last loop of put_uint.
  unfoldable pub print_loop : ℕ → List ℕ → ℕ → S → S
  print_loop zero str i s = s
  print_loop (suc k) str i s =
      let c = get_or str i 0 in
      let rest = print_loop k str (i + 1) (put s c) in if c == 0 then s else rest

  -- put_uint after the digits: the sign, the NUL, reverse, and the characters.
  unfoldable pub put_digits : Bool → List ℕ → ℕ → S → S
  unfolding print_loop reverse
  put_digits negative str i s =
      let str' = if negative then set str i b'-' else str in
      let i' = if negative then i + 1 else i in print_loop 32 (reverse (set str' i' 0) i') 0 s

  -- put_uint
  unfoldable pub put_uint : ℕ → ℕ → S → S
  unfolding put_digits digit_loop
  put_uint value base s =
      let negative = is_negative value base in
      let value' = if negative then 2 ^ 32 - value else value in
      let digits = digit_loop 32 (replicate 34 0) 0 value' base in
      if value == 0 then put s b'0' else put_digits negative digits.0 digits.1 s

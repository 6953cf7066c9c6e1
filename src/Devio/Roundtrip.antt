-- ===== src/Devio/Roundtrip.antt =====
-- kernel/devio.c: blk_read after blk_write.
use waltex.Base.{
  ltb, leb, Bool-cases, is_some, length, take, tabulate, take-drop-tabulate, ℕ, ◌+◌, ◌-◌, ◌/◌, ◌≤◌,
  ◌<◌, ◌≡◌, refl, sym, ap, ◌∙◌, inl, inr, true, false, ◌&&◌, Option, none, some, List, arith,
}
use waltex.Blockdev.{BlockDev, sector_size}
use waltex.Devio.{blk_read, blk_write, clamp}
use waltex.Devio.Patch.{KeepsSectors, Patched}
use waltex.Devio.Read.{disk_byte, ReadAt, blk_read-ReadAt}
use waltex.Devio.Wrote.{blk_write-WroteAt}

Patched-slice :
    {D : Type 0} (read : D → ℕ → ℕ → Option (List ℕ)) (d d' : D) (off m : ℕ) (src : List ℕ)
    → m ≤ length src
    → Patched read d off src m d'
    → tabulate (disk_byte read d') off m ≡ take m src
Patched-slice read d d' off m src enough p = sym (
    take-drop-tabulate src 0 m off (disk_byte read d') (omega arith) (λ j lt.
      let within : (leb off (off + j) && ltb (off + j) (off + m)) ≡ true = ground arith in
      let place : off + j - off ≡ 0 + j = omega arith in
      sym (p.0 (off + j) ∙ rw (within, place) refl)))

readable-all :
    {D : Type 0} (read : D → ℕ → ℕ → Option (List ℕ)) (d : D) (off m : ℕ) (r : Option (List ℕ))
    → ((i : ℕ) → off ≤ i → i < off + m → is_some (read d (i / sector_size) 1) ≡ true)
    → ReadAt read d off m r
    → r ≡ some (tabulate (disk_byte read d) off m)
readable-all read d off m none readable (positive, gone) =
    absurd (cc (readable off (omega arith) (omega arith), ap is_some gone))
readable-all read d off m (some bytes) readable (le, (same, how)) = elim how [
  | inl all ↦ rw (← all) (ap some same)
  | inr (positive, gone) ↦ elim (Bool-cases (ltb (length bytes) m)) [
    | inl part ↦
        absurd (cc (readable (off + length bytes) (omega arith) (ground arith), ap is_some gone))
    | inr all ↦ let e : length bytes ≡ m = ground arith in rw (← e) (ap some same)
  ]
]

-- Where blk_write on a disk that keeps its sectors has written all the bytes that fit, blk_read at
-- the same place gives them back.
pub blk_read-blk_write :
    {D : Type 0} (b : BlockDev D) (read : D → ℕ → ℕ → Option (List ℕ))
    (write : D → ℕ → ℕ → List ℕ → ℕ × D) (d : D) (size off n : ℕ) (src bounce : List ℕ)
    → b.read ≡ some read
    → KeepsSectors read write
    → b.write ≡ some write
    → n ≤ length src
    → length bounce ≡ sector_size
    → off < size
    → (blk_write (some b) d size off src n bounce).0 ≡ some (clamp size off n)
    → blk_read (some b) (blk_write (some b) d size off src n bounce).1 size off n
      ≡ some (take (clamp size off n) src)
blk_read-blk_write b read write d size off n src bounce can_read keeps can_write enough room inside
      all =
    let not_past : leb size off ≡ false = ground arith in
    let wrote =
      rw (all, not_past) at
        (blk_write-WroteAt b read write d size off n src bounce can_read keeps can_write enough
          room) in
    let after = rw not_past at (
      blk_read-ReadAt b read (blk_write (some b) d size off src n bounce).1 size off n can_read
        (keeps.whole (blk_write (some b) d size off src n bounce).1)) in
    elim wrote [
      | inl (e, p) ↦
          readable-all read (blk_write (some b) d size off src n bounce).1 off (clamp size off n)
            (blk_read (some b) (blk_write (some b) d size off src n bounce).1 size off n) p.1 after
          ∙ ap some (
              Patched-slice read d (blk_write (some b) d size off src n bounce).1 off
                (clamp size off n) src (ground arith) p)
      | inr (positive, less, others) ↦ absurd (omega arith)
    ]

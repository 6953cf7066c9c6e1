-- ===== src/Devio/Wrote.antt =====
-- blk_write of kernel/devio.c as a whole: what it leaves on the disk, and what blk_read gives then.
use waltex.Base.{
  ltb, leb, ◌==◌, if◌then◌else◌, ==→eq, Bool-cases, Option-cases, length, drop, ℕ, zero, suc, ◌+◌,
  ◌/◌, ◌%◌, ◌≤◌, ◌<◌, ◌≡◌, refl, sym, ◌∙◌, subst, ◌≢◌, inl, inr, true, false, ◌&&◌, Option, some,
  List, arith,
}
use waltex.Blockdev.{BlockDev, sector_size}
use waltex.Devio.{
  count_or_minus_one, clamp, patch_sector, chunk_at, write_from, blk_write, blk_write_loop, fetch,
}
use waltex.Devio.Patch.{WroteAt, KeepsSectors, length-patch_sector, Patched, round}
use waltex.Devio.Read.{disk_byte}
use waltex.Devio.Sector.{fetched}
use waltex.Devio.Write.{round-bytes, round-readable}

module _ {D : Type 0} (b : BlockDev D) (read : D → ℕ → ℕ → Option (List ℕ))
    (write : D → ℕ → ℕ → List ℕ → ℕ × D) (can_read : b.read ≡ some read)
    (keeps : KeepsSectors read write) where
  stopped-WroteAt :
      (d d0 d' : D) (off n fatti : ℕ) (src : List ℕ)
      → fatti < n
      → Patched read d0 off src fatti d
      → ((i : ℕ)
          → i / sector_size ≢ (off + fatti) / sector_size
          → disk_byte read d' i ≡ disk_byte read d i)
      → WroteAt read d0 off src n (count_or_minus_one fatti) d'
  stopped-WroteAt d d0 d' off n zero src more so_far others =
      let start : off + 0 ≡ off = omega arith in
      (
        more,
        λ i elsewhere.
            let outside : (leb off i && ltb i (off + 0)) ≡ false = ground arith in
            others i (λ e. elsewhere (rw (← start) e)) ∙ so_far.0 i ∙ rw outside refl,
      )
  stopped-WroteAt d d0 d' off n (suc fatti) src more so_far others =
      let some_bytes : ltb 0 (suc fatti) ≡ true = ground arith in
      rw some_bytes (inr (omega arith, more, λ i elsewhere. others i elsewhere ∙ so_far.0 i))

  finished-WroteAt :
      (d d0 : D) (off n fatti : ℕ) (src : List ℕ)
      → fatti ≡ n
      → Patched read d0 off src fatti d
      → WroteAt read d0 off src n (some fatti) d
  finished-WroteAt d d0 off n fatti src all so_far =
      inl (all, subst (λ m. Patched read d0 off src m d) all so_far)

  blk_write_loop-WroteAt :
      (k : ℕ) (d d0 : D) (off n fatti : ℕ) (src bounce : List ℕ)
      → fatti ≤ n
      → n ≤ fatti + k
      → n ≤ length src
      → length bounce ≡ sector_size
      → Patched read d0 off src fatti d
      → WroteAt read d0 off src n
          (blk_write_loop b write d off src n k fatti bounce).0
          (blk_write_loop b write d off src n k fatti bounce).1
  unfolding blk_write_loop
  blk_write_loop-WroteAt zero d d0 off n fatti src bounce le fuel enough size so_far =
      finished-WroteAt d d0 off n fatti src (omega arith) so_far
  blk_write_loop-WroteAt (suc k) d d0 off n fatti src bounce le fuel enough size so_far =
      elim (Bool-cases (ltb fatti n)) [
        | inr all ↦ rw all (finished-WroteAt d d0 off n fatti src (ground arith) so_far)
        | inl more ↦
            elim (Option-cases
              (fetch b d ((off + fatti) / sector_size) (chunk_at off fatti n) bounce)) [
                | inl gone ↦
                    rw (more, gone)
                      (stopped-WroteAt d d0 d off n fatti src (ground arith) so_far (λ i e. refl))
                | inr (before, got) ↦
                    elim (Bool-cases ((round write d off n fatti src before).0 == 1)) [
                      | inr failed ↦
                          rw (more, got, failed)
                            (stopped-WroteAt d d0 (round write d off n fatti src before).1 off n
                              fatti src (ground arith) so_far
                              (λ i elsewhere.
                                rw
                                  (keeps.other d ((off + fatti) / sector_size) (i / sector_size)
                                    (patch_sector before ((off + fatti) % sector_size)
                                      (drop fatti src) (chunk_at off fatti n))
                                    (λ e. elsewhere (sym e)))
                                  refl))
                      | inl wrote ↦
                          let (size', origin) =
                            fetched b read write can_read keeps d ((off + fatti) / sector_size)
                              ((off + fatti) % sector_size) (chunk_at off fatti n) bounce before
                              size got in
                          let once = ==→eq (round write d off n fatti src before).0 1 wrote in
                          rw (more, got, wrote)
                            (blk_write_loop-WroteAt k (round write d off n fatti src before).1 d0
                              off n (fatti + chunk_at off fatti n) src
                              (patch_sector before ((off + fatti) % sector_size) (drop fatti src)
                                (chunk_at off fatti n))
                              (ground arith) (ground arith) enough
                              (length-patch_sector before ((off + fatti) % sector_size)
                                  (drop fatti src) (chunk_at off fatti n) (omega arith)
                                ∙ size')
                              (
                                round-bytes b read write can_read keeps d d0 off n fatti src before
                                    (ground arith) enough so_far size' origin once,
                                round-readable b read write can_read keeps d d0 off n fatti src
                                    before (ground arith) enough so_far size' origin once,
                              ))
                    ]
              ]
      ]

start-Patched :
    {D : Type 0} (read : D → ℕ → ℕ → Option (List ℕ)) (d : D) (off : ℕ) (src : List ℕ)
    → Patched read d off src 0 d
start-Patched read d off src = (
  λ i. let outside : (leb off i && ltb i (off + 0)) ≡ false = ground arith in rw outside refl,
  λ i ge lt. absurd (omega arith),
)

-- blk_write on a disk of `size` bytes that keeps its sectors writes the bytes of the source from
-- `off` on and changes no other byte: all that fit, or those in front of a sector that it could not
-- read or write, which alone may have changed; -1 means that this is the first one.
pub blk_write-WroteAt :
    {D : Type 0} (b : BlockDev D) (read : D → ℕ → ℕ → Option (List ℕ))
    (write : D → ℕ → ℕ → List ℕ → ℕ × D) (d : D) (size off n : ℕ) (src bounce : List ℕ)
    → b.read ≡ some read
    → KeepsSectors read write
    → b.write ≡ some write
    → n ≤ length src
    → length bounce ≡ sector_size
    → WroteAt read d off src
        (if leb size off then 0 else clamp size off n)
        (blk_write (some b) d size off src n bounce).0
        (blk_write (some b) d size off src n bounce).1
unfolding blk_write write_from fetch
blk_write-WroteAt b read write d size off n src bounce can_read keeps can_write enough room =
    elim (Bool-cases (leb size off)) [
      | inl past ↦ rw (can_write, past) (inl (refl, start-Patched read d off src))
      | inr inside ↦
          rw (can_write, inside)
            (blk_write_loop-WroteAt b read write can_read keeps (clamp size off n) d d off
              (clamp size off n) 0 src bounce (omega arith) (omega arith) (ground arith) room
              (start-Patched read d off src))
    ]

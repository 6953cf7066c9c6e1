-- ===== src/Minixfs/Taken.antt =====
-- zona_alloca: the zone is taken and empty afterwards, and the rest of the bitmap is as before.
use mathlib.Core.Option
use waltex.Base.{
  leb, if◌then◌else◌, Bool-cases, replicate, ℕ, ◌+◌, ◌-◌, ◌≤◌, ◌<◌, ◌≡◌, refl, sym, ap, ◌∙◌, subst,
  ◌≢◌, inl, inr, Bool, true, false, not, ◌||◌, Option, none, some, arith,
}
use waltex.Minixfs.Allocate.{
  FirstFreeBit, accendi-BitChanged, bit_free, BitChanged, trova_libero-FirstFreeBit,
}
use waltex.Minixfs.Bitmap.{trova_libero, block_of, is_free, accendi}
use waltex.Blockdev.{BlockDev}
use waltex.Minixfs.Disk.{blocco_leggi, blocco_scrivi, block_size, all_bytes, is_block, KeepsBlocks}
use waltex.Minixfs.Inode.{leggi, on_disk}
use waltex.Minixfs.NewZone.{IsLayout}
use waltex.Minixfs.Types.{Fs, put_disk, blocco_zmap, disco}
use waltex.Minixfs.Zone.{zona_alloca, zone_bit, zone_marked, zone_cleared}

module _ {D : Type 0} (dev : BlockDev D) where
  -- The disk after a zone is taken: its bit is taken, every other bit of the bitmap of zones is as
  -- before, and the zone is zeros.
  abbrev pub Taken : Fs D → Fs D → ℕ → Type 0
  Taken f f' zona =
      let first = f.sb.firstdatazone in
      (bit_free (disco dev f) f'.disk (blocco_zmap f.sb) (zona - first + 1) ≡ some false)
      × ((j : ℕ)
          → j ≤ f.sb.nzones - first
          → j ≢ zona - first + 1
          → bit_free (disco dev f) f'.disk (blocco_zmap f.sb) j
            ≡ bit_free (disco dev f) f.disk (blocco_zmap f.sb) j)
      × (leggi dev f' zona ≡ some (replicate block_size 0))

  module _ (f : Fs D) (keeps : KeepsBlocks (disco dev f)) (layout : IsLayout f.sb) where
    zeros-is_block : is_block (replicate block_size 0) ≡ true
    unfolding all_bytes
    zeros-is_block = refl

    cleared-Taken :
        (bit : ℕ) (d : D) (zona : ℕ) (r : Bool × D)
        → 1 ≤ bit
        → bit < 1 + (f.sb.nzones - f.sb.firstdatazone)
        → BitChanged (disco dev f) keeps f.disk d (blocco_zmap f.sb) bit false
        → blocco_scrivi (disco dev f) d (bit + f.sb.firstdatazone - 1) (replicate block_size 0) ≡ r
        → (zone_cleared dev (bit + f.sb.firstdatazone - 1) (on_disk dev (put_disk f d) r)).0
          ≡ some zona
        → Taken f
            (zone_cleared dev (bit + f.sb.firstdatazone - 1) (on_disk dev (put_disk f d) r)).1
            zona
    unfolding zone_cleared
    cleared-Taken bit d zona (false, d') ge lt marked e took = absurd (ground arith)
    cleared-Taken bit d zona (true, d') ge lt marked e took = (
      rw index (kept bit (omega arith) ∙ marked.0),
      λ j le ne. kept j le ∙ marked.1 j (λ same. ne (same ∙ sym index)),
      ap (blocco_leggi (disco dev f) d') (sym same_zone)
          ∙ ap (λ r. blocco_leggi (disco dev f) r.1 place) (sym e)
          ∙ keeps.same d place (replicate block_size 0) zeros-is_block (ap (λ r. r.0) e),
    )
      where
        first : ℕ
        first = f.sb.firstdatazone

        place : ℕ
        place = bit + first - 1

        same_zone : place ≡ zona
        same_zone = ground arith

        index : zona - first + 1 ≡ bit
        index = omega (arith, same_zone)

        kept :
            (j : ℕ)
            → j ≤ f.sb.nzones - first
            → bit_free (disco dev f) d' (blocco_zmap f.sb) j
              ≡ bit_free (disco dev f) d (blocco_zmap f.sb) j
        kept j le = ap (Option.map (λ buf. is_free buf j)) (
            ap (λ r. blocco_leggi (disco dev f) r.1 (block_of (blocco_zmap f.sb) j)) (sym e)
            ∙ keeps.other d place (block_of (blocco_zmap f.sb) j) (replicate block_size 0)
                (ap (λ r. r.0) e) (λ eq. omega (arith, eq, layout.data_after, layout.zmap_fits)))

    marked-Taken :
        (bit zona : ℕ) (r : Bool × D)
        → 1 ≤ bit
        → bit < 1 + (f.sb.nzones - f.sb.firstdatazone)
        → accendi (disco dev f) f.disk (blocco_zmap f.sb) bit ≡ r
        → (zone_marked dev bit (on_disk dev f r)).0 ≡ some zona
        → Taken f (zone_marked dev bit (on_disk dev f r)).1 zona
    unfolding zone_marked
    marked-Taken bit zona (false, d) ge lt e took = absurd (ground arith)
    marked-Taken bit zona (true, d) ge lt e took =
        cleared-Taken bit d zona _ ge lt
          (subst (λ r. BitChanged (disco dev f) keeps f.disk r.1 (blocco_zmap f.sb) bit false) e
            (accendi-BitChanged (disco dev f) keeps f.disk (blocco_zmap f.sb) bit
              (ap (λ r. r.0) e)))
          refl took

    bit-Taken :
        (zona : ℕ) (o : Option ℕ)
        → FirstFreeBit
            (disco dev f)
            f.disk
            (blocco_zmap f.sb)
            1
            (f.sb.nzones - f.sb.firstdatazone)
            o
        → (zone_bit dev f o).0 ≡ some zona
        → Taken f (zone_bit dev f o).1 zona
    unfolding zone_bit
    bit-Taken zona none full took = absurd (ground arith)
    bit-Taken zona (some bit) (ge, lt, free, first) took = marked-Taken bit zona _ ge lt refl took

    -- A zone that zona_alloca gives is taken afterwards and is zeros, and every other bit of the
    -- bitmap of zones is as before, on a disk that keeps its blocks with the data after the bitmaps.
    pub zona_alloca-Taken :
        (zona : ℕ) → (zona_alloca dev f).0 ≡ some zona → Taken f (zona_alloca dev f).1 zona
    unfolding zona_alloca
    zona_alloca-Taken zona took =
        let first = f.sb.firstdatazone in
        let result =
          zone_bit dev f
            (trova_libero (disco dev f) f.disk (blocco_zmap f.sb) (f.sb.nzones - first)) in
        elim (Bool-cases (not f.mounted || leb f.sb.nzones first)) [
          | inl bad ↦ absurd (bad_none took bad)
          | inr good ↦ rw good (
              bit-Taken zona _ (trova_libero-FirstFreeBit (disco dev f) f.disk (blocco_zmap f.sb) _)
                (subst (λ b. (if b then (none, f) else result).0 ≡ some zona) good took))
        ]
      where
        bad_none :
            (if not f.mounted || leb f.sb.nzones f.sb.firstdatazone
                then (none, f)
                else zone_bit dev f (
                    trova_libero
                      (disco dev f)
                      f.disk
                      (blocco_zmap f.sb)
                      (f.sb.nzones - f.sb.firstdatazone))).0
              ≡ some zona
            → (not f.mounted || leb f.sb.nzones f.sb.firstdatazone) ≡ true
            → ⊥
        bad_none took bad = ground arith

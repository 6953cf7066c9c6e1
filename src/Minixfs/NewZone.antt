-- ===== src/Minixfs/NewZone.antt =====
-- zona_alloca: which zone it gives, and that nothing but the disk changes.
use waltex.Base.{
  leb, if◌then◌else◌, Bool-cases, replicate, ℕ, ◌+◌, ◌-◌, ◌*◌, ◌≤◌, ◌<◌, ◌≡◌, refl, ap, ◌∙◌, inl,
  inr, Bool, true, false, not, ◌||◌, Option, none, some, List, arith,
}
use waltex.Minixfs.Allocate.{trova_libero-FirstFreeBit, bit_free, FirstFreeBit}
use waltex.Minixfs.Bitmap.{trova_libero, bit_per_blocco}
use waltex.Blockdev.{BlockDev}
use waltex.Minixfs.Disk.{blocco_scrivi, block_size}
use waltex.Minixfs.Inode.{store_back, leggi, inode_block, is_bad_ino, on_disk, inode_scrivi}
use waltex.Minixfs.Types.{Fs, put_disk, blocco_zmap, slot_at, Superblock, disco}
use waltex.Minixfs.Zone.{zone_marked, zone_bit, zona_alloca, zone_cleared}

-- The layout that the superblock describes: the data begin after the bitmaps and the inodes, and the
-- bitmap of zones has a bit for each.
pub record IsLayout (sb : Superblock) : Type 0 where
  pub data_after : 2 + sb.imap_blocks + sb.zmap_blocks ≤ sb.firstdatazone
  pub zmap_fits : sb.nzones - sb.firstdatazone < sb.zmap_blocks * bit_per_blocco
  pub nzones_fit : sb.nzones < 65536

module _ {D : Type 0} (dev : BlockDev D) where
  -- An operation that changes nothing but the disk.
  abbrev pub OnlyDisk : Fs D → Fs D → Type 0
  OnlyDisk f f' = (d : D) × (f' ≡ put_disk f d)

  OnlyDisk-trans : (f g h : Fs D) → OnlyDisk f g → OnlyDisk g h → OnlyDisk f h
  OnlyDisk-trans f g h (d, e) (d', e') = (d', e' ∙ ap (λ x. put_disk x d') e)

  pub inode_scrivi-OnlyDisk : (f : Fs D) (i : ℕ) → OnlyDisk f (inode_scrivi dev f i).1
  unfolding inode_scrivi store_back
  inode_scrivi-OnlyDisk f i =
      go (leggi dev f (inode_block dev f (slot_at f i).ino))
        (not f.mounted || is_bad_ino dev f (slot_at f i).ino)
    where
      go :
          (o : Option (List ℕ)) (b : Bool)
          → OnlyDisk f (if b then (false, f) else store_back dev f i o).1
      go o true = (f.disk, refl)
      go none false = (f.disk, refl)
      go (some buf) false = (_, refl)

  -- A zone that zona_alloca gives: one of the data zones, by the bit that was free and is taken.
  abbrev pub Allocated : Fs D → Option ℕ × Fs D → Type 0
  Allocated f (none, f') = OnlyDisk f f'
  Allocated f (some zona, f') =
      OnlyDisk f f'
      × (f.sb.firstdatazone ≤ zona)
      × (zona < f.sb.nzones)
      × (bit_free (disco dev f) f.disk (blocco_zmap f.sb) (zona - f.sb.firstdatazone + 1)
          ≡ some true)

  zone_marked-Allocated :
      (f : Fs D) (bit : ℕ) (r : Bool × D)
      → 1 ≤ bit
      → bit < 1 + (f.sb.nzones - f.sb.firstdatazone)
      → bit_free (disco dev f) f.disk (blocco_zmap f.sb) bit ≡ some true
      → Allocated f (zone_marked dev bit (on_disk dev f r))
  unfolding zone_marked zone_cleared
  zone_marked-Allocated f bit (false, d) ge lt free = (d, refl)
  zone_marked-Allocated f bit (true, d) ge lt free =
      go (blocco_scrivi (disco dev f) d (bit + f.sb.firstdatazone - 1) (replicate block_size 0))
    where
      go :
          (r : Bool × D)
          → Allocated f
              (zone_cleared dev (bit + f.sb.firstdatazone - 1) (on_disk dev (put_disk f d) r))
      go (false, d') = (d', refl)
      go (true, d') = (
        (d', refl),
        omega arith,
        omega arith,
        ap (bit_free (disco dev f) f.disk (blocco_zmap f.sb)) (omega arith) ∙ free,
      )

  -- zona_alloca gives a zone from the first data zone on and below the number of zones, whose bit
  -- in the bitmap was free; nothing but the disk changes, whether it succeeds or not.
  pub zona_alloca-Allocated : (f : Fs D) → Allocated f (zona_alloca dev f)
  unfolding zona_alloca zone_bit
  zona_alloca-Allocated f =
      elim (Bool-cases (not f.mounted || leb f.sb.nzones f.sb.firstdatazone)) [
        | inl bad ↦ rw bad (f.disk, refl)
        | inr good ↦ rw good (
            go
              (trova_libero (disco dev f) f.disk (blocco_zmap f.sb)
                (f.sb.nzones - f.sb.firstdatazone))
              (trova_libero-FirstFreeBit (disco dev f) f.disk (blocco_zmap f.sb) _))
      ]
    where
      go :
          (o : Option ℕ)
          → FirstFreeBit
              (disco dev f)
              f.disk
              (blocco_zmap f.sb)
              1
              (f.sb.nzones - f.sb.firstdatazone)
              o
          → Allocated f (zone_bit dev f o)
      go none full = (f.disk, refl)
      go (some bit) (ge, lt, free, first) = zone_marked-Allocated f bit _ ge lt free

-- ===== src/Minixfs/Zone.antt =====
-- The zones of a file in kernel/minixfs.c: zona_di, zona_alloca, zona_assegna.
use waltex.Base.{
  ltb, leb, ◌==◌, if◌then◌else◌, get_or, set, replicate, ℕ, ◌+◌, ◌-◌, ◌*◌, ◌/◌, ◌%◌, Bool, true,
  false, not, ◌||◌, Option, none, some, List,
}
use waltex.Minixfs.Bitmap.{accendi, trova_libero}
use waltex.Minixfs.Bytes.{get16, put16}
use waltex.Blockdev.{BlockDev}
use waltex.Minixfs.Disk.{block_size}
use waltex.Minixfs.Inode.{on_disk, scrivi, leggi, inode_scrivi}
use waltex.Minixfs.Types.{
  zona_indiretta, disco, zone_dirette, blocco_zmap, zona_doppia, put_slot, Fs, slot_at,
  ptr_per_blocco,
}

module _ {D : Type 0} (dev : BlockDev D) where
  -- Pointer `k` in block `b`; 0 for a hole or a block that cannot be read.
  abbrev pub entry_of : ℕ → Option (List ℕ) → ℕ
  entry_of k none = 0
  entry_of k (some buf) = get16 buf (2 * k)

  abbrev pub pointer : Fs D → ℕ → ℕ → ℕ
  pointer f b k = if b == 0 then 0 else entry_of k (leggi dev f b)

  -- zona_di: the zone that holds block `n` of the file in slot `i`, 0 for a hole.
  unfoldable pub zona_di : Fs D → ℕ → ℕ → ℕ
  zona_di f i n =
      let zone = (slot_at f i).zone in
      let n1 = n - zone_dirette in
      let n2 = n1 - ptr_per_blocco in
      if ltb n zone_dirette
      then get_or zone n 0
      else if ltb n1 ptr_per_blocco
      then pointer f (get_or zone zona_indiretta 0) n1
      else if ltb n2 (ptr_per_blocco * ptr_per_blocco)
      then pointer f (pointer f (get_or zone zona_doppia 0) (n2 / ptr_per_blocco))
          (n2 % ptr_per_blocco)
      else 0

  -- zona_alloca, from its last step to its first.
  unfoldable pub zone_cleared : ℕ → Bool × Fs D → Option ℕ × Fs D
  zone_cleared zona (false, f) = (none, f)
  zone_cleared zona (true, f) = (some zona, f)

  unfoldable pub zone_marked : ℕ → Bool × Fs D → Option ℕ × Fs D
  unfolding zone_cleared
  zone_marked bit (false, f) = (none, f)
  zone_marked bit (true, f) =
      let zona = bit + f.sb.firstdatazone - 1 in
      zone_cleared zona (scrivi dev f zona (replicate block_size 0))

  unfoldable pub zone_bit : Fs D → Option ℕ → Option ℕ × Fs D
  unfolding zone_marked
  zone_bit f none = (none, f)
  zone_bit f (some bit) =
      zone_marked bit (on_disk dev f (accendi (disco dev f) f.disk (blocco_zmap f.sb) bit))

  -- zona_alloca: `none` is 0.
  unfoldable pub zona_alloca : Fs D → Option ℕ × Fs D
  unfolding zone_bit
  zona_alloca f =
      let max_bit = f.sb.nzones - f.sb.firstdatazone in
      let result = zone_bit f (trova_libero (disco dev f) f.disk (blocco_zmap f.sb) max_bit) in
      if not f.mounted || leb f.sb.nzones f.sb.firstdatazone then (none, f) else result

  -- `m->zone[n] = (uint16_t)z`
  abbrev pub set_zone : Fs D → ℕ → ℕ → ℕ → Fs D
  set_zone f i n z =
      put_slot f i (record (slot_at f i) { zone = set (slot_at f i).zone n (z % 65536) })

  -- `ptr[n] = (uint16_t)z` in the indirect block `ind`.
  unfoldable pub store_pointer : Fs D → ℕ → ℕ → ℕ → Option (List ℕ) → Bool × Fs D
  store_pointer f ind n z none = (false, f)
  store_pointer f ind n z (some buf) = scrivi dev f ind (put16 buf (2 * n) z)

  unfoldable pub inode_stored : ℕ → ℕ → ℕ → Bool × Fs D → Bool × Fs D
  unfolding store_pointer
  inode_stored ind n z (false, f) = (false, f)
  inode_stored ind n z (true, f) = store_pointer f ind n z (leggi dev f ind)

  -- A new indirect block for the inode in slot `i`. The source also takes a zone 0 for a failure,
  -- which zona_alloca gives only where firstdatazone is 0.
  unfoldable pub new_indirect : ℕ → ℕ → ℕ → Option ℕ × Fs D → Bool × Fs D
  unfolding inode_stored
  new_indirect i n z (none, f) = (false, f)
  new_indirect i n z (some ind, f) =
      inode_stored ind n z (inode_scrivi dev (set_zone f i zona_indiretta ind) i)

  -- zona_assegna
  unfoldable pub zona_assegna : Fs D → ℕ → ℕ → ℕ → Bool × Fs D
  unfolding new_indirect store_pointer
  zona_assegna f i n z =
      let n1 = n - zone_dirette in
      let ind = get_or (slot_at f i).zone zona_indiretta 0 in
      let direct = inode_scrivi dev (set_zone f i n z) i in
      let fresh = new_indirect i n1 z (zona_alloca f) in
      let old = store_pointer f ind n1 z (leggi dev f ind) in
      if z == 0
      then (false, f)
      else if ltb n zone_dirette
      then direct
      else if ltb n1 ptr_per_blocco
      then (if ind == 0 then fresh else old)
      else (false, f)

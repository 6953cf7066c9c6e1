-- ===== src/Minixfs/Table.antt =====
-- The table of inodes: what inode_scrivi stores is what the disk has, and the other inodes stay.
use mathlib.Core.Option
use waltex.Base.{
  ltb, ◌==◌, if◌then◌else◌, ltb→lt, ==→eq, Bool-cases, length, ℕ, ◌+◌, ◌-◌, ◌%◌, ◌≤◌, ◌<◌, ◌≡◌,
  refl, ap, ◌∙◌, subst, ◌≢◌, ◌⊎◌, inl, inr, true, false, not, ◌||◌, Option, none, some, List, arith,
}
use waltex.Blockdev.{BlockDev}
use waltex.Minixfs.Disk.{
  KeepsBlocks, is_block-length, blocco_leggi, is_block, block_size, blocco_scrivi,
}
use waltex.Minixfs.Inode.{
  store_inode, is_bad_ino, minode_of, inode_block, inode_offset, leggi, inode_scrivi, store_back,
}
use waltex.Minixfs.Record.{
  IsMinode, minode_of-store_inode, minode_of-Agree, store_inode-other, is_block-store_inode,
}
use waltex.Minixfs.Types.{Fs, inode_size, slot_at, put_disk, Minode, disco}

module _ {D : Type 0} (dev : BlockDev D) where
  -- The inode `ino` as the disk has it.
  abbrev pub disk_inode : Fs D → ℕ → Option Minode
  disk_inode f ino =
      Option.map (λ buf. minode_of ino buf (inode_offset ino)) (leggi dev f (inode_block dev f ino))

  -- The disk after inode_scrivi: the inode of the slot is on it, and every other inode is as before.
  abbrev pub Stored : Fs D → ℕ → Fs D → Type 0
  Stored f i f' =
      (disk_inode f' (slot_at f i).ino ≡ some (slot_at f i))
      × ((ino : ℕ) → 0 < ino → ino ≢ (slot_at f i).ino → disk_inode f' ino ≡ disk_inode f ino)
      × (f'.cache ≡ f.cache)

  store_back-Stored :
      (f : Fs D) (i : ℕ) (o : Option (List ℕ))
      → KeepsBlocks (disco dev f)
      → IsMinode (slot_at f i)
      → 0 < (slot_at f i).ino
      → leggi dev f (inode_block dev f (slot_at f i).ino) ≡ o
      → (store_back dev f i o).0 ≡ true
      → Stored f i (store_back dev f i o).1
  unfolding store_back
  store_back-Stored f i none keeps w pos_ino e took = absurd (ground arith)
  store_back-Stored f i (some buf) keeps w pos_ino e took = (
    ap (Option.map (λ buf. minode_of ino buf (inode_offset ino))) now
        ∙ ap some
            (minode_of-store_inode (slot_at f i) buf (inode_offset ino) w (omega (arith, size))),
    others,
    refl,
  )
    where
      ino : ℕ
      ino = (slot_at f i).ino

      buf' : List ℕ
      buf' = store_inode (slot_at f i) buf (inode_offset ino)

      block : is_block buf ≡ true
      block = keeps.whole f.disk _ buf e

      size : length buf ≡ block_size
      size = is_block-length buf block

      now :
          blocco_leggi
            (disco dev f)
            (blocco_scrivi (disco dev f) f.disk (inode_block dev f ino) buf').1
            (inode_block dev f ino)
          ≡ some buf'
      now =
          keeps.same f.disk _ buf' (is_block-store_inode (slot_at f i) buf (inode_offset ino) block)
            took

      -- Another inode of the same block has its 32 bytes elsewhere.
      elsewhere :
          (other j : ℕ)
          → 0 < other
          → other ≢ ino
          → inode_block dev f ino ≡ inode_block dev f other
          → inode_offset other ≤ j
          → j < inode_offset other + inode_size
          → (j < inode_offset ino) ⊎ (inode_offset ino + inode_size ≤ j)
      elsewhere other j pos_other ne same ge lt = elim (Bool-cases (ltb j (inode_offset ino))) [
        | inl before ↦ inl (ltb→lt _ _ before)
        | inr after ↦ inr (rest_apart (ground arith))
      ]
        where
          rest_apart : inode_offset ino ≤ j → inode_offset ino + inode_size ≤ j
          rest_apart at =
              let differ : (other - 1) % 32 ≢ (ino - 1) % 32 = λ eq. ne (omega (arith, eq)) in
              omega (arith, differ)

      others :
          (other : ℕ)
          → 0 < other
          → other ≢ ino
          → disk_inode
              (put_disk f (blocco_scrivi (disco dev f) f.disk (inode_block dev f ino) buf').1)
              other
            ≡ disk_inode f other
      others other pos_other ne =
          elim (Bool-cases (inode_block dev f ino == inode_block dev f other)) [
            | inl same ↦
                let eq = ==→eq _ _ same in
                rw (← eq) (
                  rw (now, e)
                    (ap some (
                      minode_of-Agree other buf' buf (inode_offset other) (λ j ge lt.
                        store_inode-other (slot_at f i) buf (inode_offset ino) j w.zones
                          (elsewhere other j pos_other ne eq ge lt)))))
            | inr differ ↦
                ap (Option.map (λ buf. minode_of other buf (inode_offset other)))
                  (keeps.other f.disk _ _ _ took (λ eq. ground arith))
          ]

  -- inode_scrivi, where it succeeds on a slot that fits the disk: the inode as the disk has it is
  -- the inode of the slot, every other inode on the disk is as before, and so is the cache.
  pub inode_scrivi-Stored :
      (f : Fs D) (i : ℕ)
      → KeepsBlocks (disco dev f)
      → IsMinode (slot_at f i)
      → (inode_scrivi dev f i).0 ≡ true
      → Stored f i (inode_scrivi dev f i).1
  unfolding inode_scrivi
  inode_scrivi-Stored f i keeps w took =
      let ino = (slot_at f i).ino in
      elim (Bool-cases (not f.mounted || is_bad_ino dev f ino)) [
        | inl bad ↦ absurd (ground arith)
        | inr good ↦ rw good (
            store_back-Stored f i (leggi dev f (inode_block dev f ino)) keeps w (ground arith) refl
              (subst
                (λ b.
                  (if b
                    then (false, f)
                    else store_back dev f i (leggi dev f (inode_block dev f ino))).0
                  ≡ true)
                good took))
      ]

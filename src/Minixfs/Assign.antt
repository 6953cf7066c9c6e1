-- ===== src/Minixfs/Assign.antt =====
-- zona_assegna: zona_di finds the zone that was assigned.
use waltex.Base.{
  ltb, ◌==◌, if◌then◌else◌, ltb→lt, lt→ltb, ==→eq, eq_false, length, get_or, get_or-set_self, ℕ,
  ◌-◌, ◌*◌, ◌%◌, ◌≤◌, ◌<◌, ◌≡◌, refl, sym, ap, ◌∙◌, subst, ◌≢◌, Bool, true, false, Option, none,
  some, List, arith,
}
use waltex.Minixfs.Bytes.{is_block-put16, get16-put16, put16}
use waltex.Blockdev.{BlockDev}
use waltex.Minixfs.Disk.{is_block-length, KeepsBlocks}
use waltex.Minixfs.Inode.{leggi, inode_scrivi}
use waltex.Minixfs.NewZone.{
  OnlyDisk, IsLayout, Allocated, inode_scrivi-OnlyDisk, zona_alloca-Allocated,
}
use waltex.Minixfs.Types.{
  ptr_per_blocco, Fs, zone_dirette, disco, slot_at, zona_indiretta, blank_minode, put_disk,
}
use waltex.Minixfs.Zone.{
  pointer, zona_di, set_zone, store_pointer, new_indirect, inode_stored, zona_assegna, zona_alloca,
}

module _ {D : Type 0} (dev : BlockDev D) where
  -- After the pointer is stored in the indirect block `ind`, it is what that block says.
  store_pointer-pointer :
      (f : Fs D) (ind n z : ℕ) (o : Option (List ℕ))
      → KeepsBlocks (disco dev f)
      → leggi dev f ind ≡ o
      → ind ≢ 0
      → n < ptr_per_blocco
      → z < 65536
      → (store_pointer dev f ind n z o).0 ≡ true
      → (pointer dev (store_pointer dev f ind n z o).1 ind n ≡ z)
        × ((store_pointer dev f ind n z o).1.cache ≡ f.cache)
  unfolding store_pointer
  store_pointer-pointer f ind n z none keeps e ne lt small took = absurd (ground arith)
  store_pointer-pointer f ind n z (some buf) keeps e ne lt small took =
      let block = keeps.whole f.disk ind buf e in
      let now =
        keeps.same f.disk ind (put16 buf (2 * n) z) (is_block-put16 buf (2 * n) z block) took in
      (
        rw (eq_false (ind == 0) (λ eq. ne (==→eq _ _ eq)), now)
            (get16-put16 buf (2 * n) z (omega (arith, is_block-length buf block)) ∙ omega arith),
        refl,
      )

  -- In a file whose slot says so, block `n + 7` is the zone that pointer `n` of the indirect block
  -- names.
  zona_di-indirect :
      (f : Fs D) (i n ind : ℕ)
      → zone_dirette ≤ n
      → n - zone_dirette < ptr_per_blocco
      → get_or (slot_at f i).zone zona_indiretta 0 ≡ ind
      → zona_di dev f i n ≡ pointer dev f ind (n - zone_dirette)
  unfolding zona_di
  zona_di-indirect f i n ind ge lt e =
      rw (eq_false (ltb n zone_dirette) (λ eq. ground arith), lt→ltb _ _ lt, e) refl

  zona_di-direct :
      (f : Fs D) (i n : ℕ) → n < zone_dirette → zona_di dev f i n ≡ get_or (slot_at f i).zone n 0
  unfolding zona_di
  zona_di-direct f i n lt = rw (lt→ltb n zone_dirette lt) refl

  set_zone-zone :
      (f : Fs D) (i k v : ℕ)
      → i < length f.cache
      → k < length (slot_at f i).zone
      → v < 65536
      → get_or (slot_at (set_zone dev f i k v) i).zone k 0 ≡ v
  set_zone-zone f i k v lt lt' small =
      ap (λ m. get_or m.zone k 0) (get_or-set_self f.cache i _ blank_minode lt)
      ∙ get_or-set_self (slot_at f i).zone k (v % 65536) 0 lt'
      ∙ omega arith

  -- The pointer goes into an indirect block that the slot names.
  stored-zona_di :
      (f : Fs D) (i n ind z : ℕ)
      → KeepsBlocks (disco dev f)
      → get_or (slot_at f i).zone zona_indiretta 0 ≡ ind
      → ind ≢ 0
      → zone_dirette ≤ n
      → n - zone_dirette < ptr_per_blocco
      → z < 65536
      → (store_pointer dev f ind (n - zone_dirette) z (leggi dev f ind)).0 ≡ true
      → zona_di dev (store_pointer dev f ind (n - zone_dirette) z (leggi dev f ind)).1 i n ≡ z
  stored-zona_di f i n ind z keeps at ne ge lt small took =
      let (says, kept) =
        store_pointer-pointer f ind (n - zone_dirette) z _ keeps refl ne lt small took in
      zona_di-indirect _ i n ind ge lt
        (ap (λ c. get_or (get_or c i blank_minode).zone zona_indiretta 0) kept ∙ at)
      ∙ says

  module _ (f : Fs D) (i n z : ℕ) (keeps : KeepsBlocks (disco dev f)) (layout : IsLayout f.sb)
      (in_cache : i < length f.cache) (nine : length (slot_at f i).zone ≡ 9)
      (small : z < 65536) where
    direct-zona_di :
        n < zone_dirette → zona_di dev (inode_scrivi dev (set_zone dev f i n z) i).1 i n ≡ z
    direct-zona_di lt =
        let (d, e) = inode_scrivi-OnlyDisk dev (set_zone dev f i n z) i in
        ap (λ g. zona_di dev g i n) e
        ∙ zona_di-direct _ i n lt
        ∙ set_zone-zone f i n z in_cache (omega (arith, nine)) small

    module _ (ge : zone_dirette ≤ n) (lt : n - zone_dirette < ptr_per_blocco) where
      stored-fresh :
          (g : Fs D) (ind : ℕ) (r : Bool × Fs D)
          → OnlyDisk dev f g
          → ind < 65536
          → ind ≢ 0
          → OnlyDisk dev (set_zone dev g i zona_indiretta ind) r.1
          → (inode_stored dev ind (n - zone_dirette) z r).0 ≡ true
          → zona_di dev (inode_stored dev ind (n - zone_dirette) z r).1 i n ≡ z
      unfolding inode_stored
      stored-fresh g ind (false, h) (d, e) fits ne (d', e') took = absurd (ground arith)
      stored-fresh g ind (true, h) (d, e) fits ne (d', e') took =
          stored-zona_di h i n ind z
            (subst (λ x. KeepsBlocks (disco dev x))
              (sym (e' ∙ ap (λ x. put_disk (set_zone dev x i zona_indiretta ind) d') e)) keeps)
            (ap (λ x. get_or (slot_at x i).zone zona_indiretta 0)
                (e' ∙ ap (λ x. put_disk (set_zone dev x i zona_indiretta ind) d') e)
              ∙ set_zone-zone f i zona_indiretta ind in_cache (omega (arith, nine)) fits)
            ne ge lt small took

      fresh-zona_di :
          (r : Option ℕ × Fs D)
          → Allocated dev f r
          → (new_indirect dev i (n - zone_dirette) z r).0 ≡ true
          → zona_di dev (new_indirect dev i (n - zone_dirette) z r).1 i n ≡ z
      unfolding new_indirect
      fresh-zona_di (none, g) same took = absurd (ground arith)
      fresh-zona_di (some ind, g) (same, ge', lt', free) took =
          stored-fresh g ind _ same (omega (arith, layout.nzones_fit))
            (λ e. omega (arith, e, layout.data_after))
            (inode_scrivi-OnlyDisk dev (set_zone dev g i zona_indiretta ind) i) took

    -- After zona_assegna succeeds, zona_di answers the zone that was assigned: one of the seven of
    -- the inode, one in the indirect block, or one in an indirect block that the call allocates. The
    -- disk keeps its blocks, the data lie after the bitmaps, the slot is in the cache with nine
    -- zones, and the zone fits 16 bits.
    pub zona_di-zona_assegna :
        (zona_assegna dev f i n z).0 ≡ true → zona_di dev (zona_assegna dev f i n z).1 i n ≡ z
    unfolding zona_assegna
    zona_di-zona_assegna took =
        go (z == 0) (ltb n zone_dirette) (ltb (n - zone_dirette) ptr_per_blocco) (ind == 0) refl
          refl refl took
      where
        ind : ℕ
        ind = get_or (slot_at f i).zone zona_indiretta 0

        result : Bool → Bool → Bool → Bool → Bool × Fs D
        result null direct indirect none_yet =
            if null
            then (false, f)
            else if direct
            then inode_scrivi dev (set_zone dev f i n z) i
            else if indirect
            then (if none_yet
                then new_indirect dev i (n - zone_dirette) z (zona_alloca dev f)
                else store_pointer dev f ind (n - zone_dirette) z (leggi dev f ind))
            else (false, f)

        go :
            (null direct indirect none_yet : Bool)
            → ltb n zone_dirette ≡ direct
            → ltb (n - zone_dirette) ptr_per_blocco ≡ indirect
            → (ind == 0) ≡ none_yet
            → (result null direct indirect none_yet).0 ≡ true
            → zona_di dev (result null direct indirect none_yet).1 i n ≡ z
        go true direct indirect none_yet d p o took = absurd (ground arith)
        go false true indirect none_yet d p o took = direct-zona_di (ltb→lt _ _ d)
        go false false false none_yet d p o took = absurd (ground arith)
        go false false true true d p o took =
            fresh-zona_di (ground arith) (ltb→lt _ _ p) (zona_alloca dev f)
              (zona_alloca-Allocated dev f) took
        go false false true false d p o took =
            stored-zona_di f i n ind z keeps refl (λ e. ground arith) (ground arith) (ltb→lt _ _ p)
              small took

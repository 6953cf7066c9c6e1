-- ===== src/Minixfs/Cache.antt =====
-- inode_carica: one slot for an inode, however often it is loaded.
use waltex.Base.{
  ltb, ◌==◌, if◌then◌else◌, ==→eq, eq→==, Bool-cases, length, get_or-set_self, get_or-set_ne,
  FirstIn, first_index-FirstIn, first_index_unique, ℕ, ◌<◌, ◌≡◌, refl, sym, ap, ◌∙◌, subst, ◌≢◌,
  inl, inr, Bool, true, false, not, ◌||◌, Option, none, some, List, arith,
}
use waltex.Blockdev.{BlockDev}
use waltex.Minixfs.Inode.{
  fill_from, cached, load_into, cached_or_load, carica, inode_offset, minode_of, is_bad_ino,
}
use waltex.Minixfs.Types.{is_no_type, Fs, put_slot, blank_minode, max_inodes, slot_at, Minode}

module _ {D : Type 0} (dev : BlockDev D) where
  -- Once an inode is in a slot and in no other, the cache finds that slot.
  cached-put_slot :
      (f : Fs D) (ino i : ℕ) (m : Minode)
      → i < max_inodes
      → length f.cache ≡ max_inodes
      → m.ino ≡ ino
      → ((j : ℕ) → j < max_inodes → ((slot_at f j).ino == ino) ≡ false)
      → cached dev (put_slot f i m) ino ≡ some i
  cached-put_slot f ino i m lt size same nowhere =
      first_index_unique (λ j. (slot_at (put_slot f i m) j).ino == ino) max_inodes i lt
        (ap (λ x. x.ino == ino) (get_or-set_self f.cache i m blank_minode (omega (arith, size)))
          ∙ eq→== m.ino ino same)
        only
    where
      only : (j : ℕ) → j < max_inodes → ((slot_at (put_slot f i m) j).ino == ino) ≡ true → j ≡ i
      only j lt hit = elim (Bool-cases (i == j)) [
        | inl e ↦ sym (==→eq i j e)
        | inr differ ↦
            let ne : i ≢ j = λ e. ground arith in
            let old = ap (λ x. x.ino == ino) (get_or-set_ne f.cache i j m blank_minode ne) in
            absurd (clash (sym hit ∙ old ∙ nowhere j lt))
      ]
        where
          clash : ¬ (true ≡ false)
          clash e = cc

  -- What a load does: the slot is where the cache finds the inode afterwards, and the superblock
  -- and the mount stay.
  abbrev pub Loaded : Fs D → ℕ → Option ℕ × Fs D → Type 0
  Loaded f ino (none, f') = Unit {0}
  Loaded f ino (some i, f') =
      (cached dev f' ino ≡ some i) × (f'.mounted ≡ f.mounted) × (f'.sb ≡ f.sb)

  fill_from-Loaded :
      (f : Fs D) (ino i : ℕ) (o : Option (List ℕ))
      → i < max_inodes
      → length f.cache ≡ max_inodes
      → ((j : ℕ) → j < max_inodes → ((slot_at f j).ino == ino) ≡ false)
      → Loaded f ino (fill_from dev f ino i o)
  unfolding fill_from
  fill_from-Loaded f ino i none lt size nowhere = tt
  fill_from-Loaded f ino i (some buf) lt size nowhere =
      elim (Bool-cases (is_no_type (minode_of ino buf (inode_offset ino)).kind)) [
        | inl bad ↦ rw bad tt
        | inr good ↦ rw good (cached-put_slot f ino i _ lt size refl nowhere, refl, refl)
      ]

  load_into-Loaded :
      (f : Fs D) (ino : ℕ) (o : Option ℕ)
      → length f.cache ≡ max_inodes
      → FirstIn (λ j. (slot_at f j).ino == 0) 0 max_inodes o
      → ((j : ℕ) → j < max_inodes → ((slot_at f j).ino == ino) ≡ false)
      → Loaded f ino (load_into dev f ino o)
  unfolding load_into
  load_into-Loaded f ino none size full nowhere = tt
  load_into-Loaded f ino (some i) size (ge, lt, free, first) nowhere =
      fill_from-Loaded f ino i _ (omega arith) size nowhere

  cached_or_load-Loaded :
      (f : Fs D) (ino : ℕ) (o : Option ℕ)
      → length f.cache ≡ max_inodes
      → cached dev f ino ≡ o
      → FirstIn (λ j. (slot_at f j).ino == ino) 0 max_inodes o
      → Loaded f ino (cached_or_load dev f ino o)
  unfolding cached_or_load
  cached_or_load-Loaded f ino (some i) size e here = (e, refl, refl)
  cached_or_load-Loaded f ino none size e nowhere =
      load_into-Loaded f ino (cached dev f 0) size
        (first_index-FirstIn (λ j. (slot_at f j).ino == 0) 0 max_inodes)
        (λ j lt. nowhere j (omega arith) (omega arith))

  carica-cached :
      (g : Fs D) (ino i : ℕ)
      → g.mounted ≡ true
      → is_bad_ino dev g ino ≡ false
      → cached dev g ino ≡ some i
      → carica dev g ino ≡ (some i, g)
  unfolding carica cached_or_load
  carica-cached g ino i on good e = rw (on, good, e) refl

  -- A load that gives a slot passed its two tests.
  carica-tests :
      (f : Fs D) (ino i : ℕ)
      → (carica dev f ino).0 ≡ some i
      → (carica dev f ino ≡ cached_or_load dev f ino (cached dev f ino))
        × (f.mounted ≡ true)
        × (is_bad_ino dev f ino ≡ false)
  unfolding carica
  carica-tests f ino i got =
      go f.mounted (is_bad_ino dev f ino) (cached_or_load dev f ino (cached dev f ino)) got
    where
      go :
          (on bad : Bool) (r : Option ℕ × Fs D)
          → (if not on then (none, f) else if bad then (none, f) else r).0 ≡ some i
          → ((if not on then (none, f) else if bad then (none, f) else r) ≡ r)
            × (on ≡ true)
            × (bad ≡ false)
      go false bad r h = absurd (ground arith)
      go true true r h = absurd (ground arith)
      go true false r h = (refl, refl, refl)

  -- Two loads of an inode give the same slot, and the second one changes nothing.
  pub carica-again :
      (f : Fs D) (ino i : ℕ)
      → length f.cache ≡ max_inodes
      → (carica dev f ino).0 ≡ some i
      → carica dev (carica dev f ino).1 ino ≡ (some i, (carica dev f ino).1)
  carica-again f ino i size got =
      let (e, on, good) = carica-tests f ino i got in
      subst (λ r. r.0 ≡ some i → carica dev r.1 ino ≡ (some i, r.1)) (sym e)
        (go on good (cached_or_load dev f ino (cached dev f ino)) (
          cached_or_load-Loaded f ino _ size refl
            (first_index-FirstIn (λ j. (slot_at f j).ino == ino) 0 max_inodes)))
        got
    where
      go :
          f.mounted ≡ true
          → is_bad_ino dev f ino ≡ false
          → (r : Option ℕ × Fs D) → Loaded f ino r
          → r.0 ≡ some i
          → carica dev r.1 ino ≡ (some i, r.1)
      go on good (none, g) loaded h = absurd (ground arith)
      go on good (some j, g) (found_it, same_mount, same_sb) h =
          carica-cached g ino i (same_mount ∙ on)
            (ap (λ sb. ino == 0 || ltb sb.ninodes ino) same_sb ∙ good) (found_it ∙ h)
